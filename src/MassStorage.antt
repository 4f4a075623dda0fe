-- ===== src/MassStorage.antt =====
-- Plugins/Filters/PacketFilter_MassStorage.cpp: a filter that follows the SCSI commands of a mass
-- storage device, and can cache blocks and keep the host from writing. `malloc` never fails here,
-- and what is printed is left out.
pub mod Cache
pub mod Blocking
pub mod Passing
pub mod Status
use usbproxy.Base.{
  fun_ext, ℕ, zero, suc, ◌+◌, ◌-◌, ◌*◌, ◌/◌, ◌%◌, ◌^◌, ◌≤◌, ◌<◌, min, max, ◌≡◌, refl, sym, ap, ap₂,
  subst, ◌∙◌, ◌≢◌, ◌↔◌, ◌⊎◌, inl, inr, Bool, true, false, ◌&&◌, ◌||◌, not, Option, none, some, List,
  [], ◌∷◌, ◌++◌, map, append-nil, append_assoc, arith, ltb, leb, ◌==◌, if◌then◌else◌, ltb→lt,
  lt→ltb, leb→le, le→leb, lt→leb, ==_iff, ==_refl, ==_ne, if-cases, below, below-holds, Bool-cases,
  Option-cases, length, get_elem?, get_or, set, take, drop, replicate, length-append, length-set,
  get_elem?-set_self, get_elem?-set_ne, get_elem?-none, get_elem?-some, get_elem?-append_left,
  get_elem?-append_right, get_elem?-inside, get_elem?-replicate, get_elem?-take, take-append_length,
  drop-append_length, take-append_left, take_all, length-take, length-drop, length-replicate, All,
  All-append, All-get_elem?, All-set, All-replicate, get_elem?-at, set-at, Bytes, u8, u16, has,
}
use usbproxy.Result.{Result, ok, fault, exits, spins, ◌>>=◌, deref, at_index, read_bytes, overlay}
use usbproxy.Packet.{Packet, new_packet}

-- `IDLE`, `COMMAND` and so on: what a packet is, and the state of the filter.
pub data Phase : Type 0 where
  idle command reading writing status unknown : Phase

-- The pipe to the injector holds the tags that were written to it.
pub record MassStorage : Type 0 where
  pub state : Phase
  pub tag : Bytes
  pub block_writes : Bool
  pub cache_blocks : Bool
  pub inband_signalling : Bool
  pub inband_block_writes : Bool
  pub unblock_password : Bytes
  pub block_password : Bytes
  pub block_count : ℕ
  pub block_offset : ℕ
  pub base_address : ℕ
  pub block_cache : List (ℕ × Bytes)
  pub pipe : List Bytes

-- The test `== "on"`.
abbrev pub is_on : Bytes → Bool
is_on (a ∷ b ∷ []) = a == 111 && b == 110
is_on value = false

-- The constructor, with the values of its five keys. Three members are not set: they are what is
-- found in memory.
unfoldable pub init : Bytes → Bytes → Bytes → Bytes → Bytes → Bytes → ℕ → ℕ → MassStorage
init blocks caches inband block unblock tag offset base = record {
  state = idle;
  tag = tag;
  block_writes = is_on blocks;
  cache_blocks = is_on caches;
  inband_signalling = is_on inband;
  inband_block_writes = is_on blocks;
  unblock_password = unblock;
  block_password = block;
  block_count = 0;
  block_offset = offset;
  base_address = base;
  block_cache = [];
  pipe = [];
}

unfoldable pub queue_packet : MassStorage → MassStorage
queue_packet s = record s { pipe = s.pipe ++ (s.tag ∷ []) }

abbrev pub block_size : ℕ
block_size = 512

-- `std::map::find` and the assignment to an entry.
unfoldable pub find : ℕ → List (ℕ × Bytes) → Option Bytes
find a [] = none
find a ((b, block) ∷ cache) = let rest = find a cache in if a == b then some block else rest

unfoldable pub put : ℕ → Bytes → List (ℕ × Bytes) → List (ℕ × Bytes)
put a new [] = (a, new) ∷ []
put a new ((b, block) ∷ cache) =
    let rest = put a new cache in if a == b then (a, new) ∷ cache else (b, block) ∷ rest

-- The cache and the data of the packet afterwards.
unfoldable pub cache_read : List (ℕ × Bytes) → ℕ → Bytes → Result (List (ℕ × Bytes) × Bytes)
unfolding find put
cache_read cache address bytes = elim (find address cache) [
  | none ↦ (do block ← read_bytes block_size bytes; ok (put address block cache, bytes))
  | some block ↦ (do bytes' ← overlay bytes block; ok (cache, bytes'))
]

-- Whether the block is in the cache decides only what is printed.
unfoldable pub cache_write : List (ℕ × Bytes) → ℕ → Bytes → Result (List (ℕ × Bytes))
unfolding put
cache_write cache address bytes = do
  block ← read_bytes block_size bytes
  ok (put address block cache)

-- A `__u8` is compared with a `char`, which is signed.
abbrev pub same_char : ℕ → ℕ → Bool
same_char d c = ltb c 128 && d == c

-- The loop of `check_for_password`, over the next `n` bytes. The password ends with a zero.
unfoldable pub scan : ℕ → Bytes → ℕ → Bytes → Result Bool
scan zero password ptr bytes = ok false
scan (suc n) password ptr [] = fault
scan (suc n) password ptr (d ∷ bytes) = do
  c ← at_index (password ++ (0 ∷ [])) ptr
  let ptr' = if same_char d c then suc ptr else 0
  let rest = scan n password ptr' bytes
  if ptr' == length password then ok true else rest

unfoldable pub check_for_password : MassStorage → Bytes → Result MassStorage
unfolding scan
check_for_password s bytes =
    if s.inband_block_writes
    then (do
      found ← scan (block_size - length s.unblock_password) s.unblock_password 0 bytes
      ok (if found then record s { inband_block_writes = false } else s))
    else (do
      found ← scan (block_size - length s.block_password) s.block_password 0 bytes
      ok (if found then record s { inband_block_writes = true } else s))

-- The comparisons of the first bytes, each made only if those before it hold.
unfoldable pub starts_with : Bytes → Bytes → Result Bool
starts_with [] bytes = ok true
starts_with (e ∷ es) [] = fault
starts_with (e ∷ es) (d ∷ bytes) =
    let rest = starts_with es bytes in if d == e then rest else ok false

-- The variable `type`.
unfoldable pub classify : Phase → ℕ → Bytes → Result Phase
unfolding starts_with
classify state len bytes = do
  is_command ← if len == 31 then starts_with (0x55 ∷ 0x53 ∷ 0x42 ∷ 0x43 ∷ []) bytes else ok false
  is_status ← if len == 13 then starts_with (0x55 ∷ 0x53 ∷ 0x42 ∷ 0x53 ∷ []) bytes else ok false
  ok (
      if is_status
      then status
      else if is_command
      then command
      else if ltb 64 len
      then state
      else unknown)

-- The fields of a command: the number of blocks and the first of them, high byte first.
abbrev pub start_transfer : MassStorage → Phase → Bytes → Result MassStorage
start_transfer s phase bytes = do
  b16 ← at_index bytes 0x16
  b17 ← at_index bytes 0x17
  b11 ← at_index bytes 0x11
  b12 ← at_index bytes 0x12
  b13 ← at_index bytes 0x13
  b14 ← at_index bytes 0x14
  ok (record s {
    state = phase;
    block_count = b16 * 256 + b17;
    base_address = b11 * 2 ^ 24 + b12 * 2 ^ 16 + b13 * 256 + b14;
    block_offset = 0;
  })

unfoldable pub on_command : MassStorage → Packet → Bytes → Result (MassStorage × Packet)
on_command s p bytes = do
  op ← at_index bytes 0x0f
  if op == 0x28
      then (do s' ← start_transfer s reading bytes; ok (s', p))
      else if op == 0x2a
      then (do
        let blocks = if s.inband_signalling then s.inband_block_writes else s.block_writes
        t4 ← at_index bytes 4
        t5 ← at_index bytes 5
        t6 ← at_index bytes 6
        t7 ← at_index bytes 7
        let tagged : MassStorage = record s { block_writes = blocks; tag = t4 ∷ t5 ∷ t6 ∷ t7 ∷ [] }
        s' ← start_transfer tagged writing bytes
        ok (s', if blocks then record p { transmit = false } else p))
      else ok (s, p)

abbrev pub address : MassStorage → ℕ
address s = (s.block_offset + s.base_address) % 2 ^ 32

unfoldable pub on_write : MassStorage → Packet → Bytes → Result (MassStorage × Packet)
unfolding cache_write check_for_password queue_packet
on_write s p bytes = do
  cache ← if s.cache_blocks then cache_write s.block_cache (address s) bytes else ok s.block_cache
  let cached : MassStorage = record s { block_cache = cache }
  checked ← if s.inband_signalling then check_for_password cached bytes else ok cached
  let counted : MassStorage = record checked { block_offset = (checked.block_offset + 1) % 2 ^ 32 }
  ok (
      if checked.block_writes
      then (
        if counted.block_offset == counted.block_count then queue_packet counted else counted,
        record p { transmit = false },
      )
      else (checked, p))

unfoldable pub on_read : MassStorage → Packet → Bytes → Result (MassStorage × Packet)
unfolding cache_read
on_read s p bytes = do
  r ←
      if s.cache_blocks
      then cache_read s.block_cache (address s) bytes
      else ok (s.block_cache, bytes)
  ok (
    record s { block_cache = r.0; block_offset = (s.block_offset + 1) % 2 ^ 32 },
    record p { data_bytes = if s.cache_blocks then some r.1 else p.data_bytes },
  )

unfoldable pub on_status : MassStorage → Packet → Bytes → Result (MassStorage × Packet)
on_status s p bytes = do code ← at_index bytes 12; ok (record s { state = idle }, p)

unfoldable pub dispatch : Phase → MassStorage → Packet → Bytes → Result (MassStorage × Packet)
unfolding on_command on_write on_read on_status
dispatch idle s p bytes = ok (s, p)
dispatch command s p bytes = on_command s p bytes
dispatch reading s p bytes = on_read s p bytes
dispatch writing s p bytes = on_write s p bytes
dispatch status s p bytes = on_status s p bytes
dispatch unknown s p bytes = ok (s, p)

-- A null pointer faults only where it is read.
abbrev pub bytes_at : Option Bytes → Bytes
bytes_at none = []
bytes_at (some bytes) = bytes

unfoldable pub filter_packet : MassStorage → Packet → Result (MassStorage × Packet)
unfolding classify dispatch
filter_packet s p = do
  kind ← classify s.state p.length (bytes_at p.data_bytes)
  dispatch kind s p (bytes_at p.data_bytes)

-- The injector: it takes a tag from the pipe, and waits where there is none. The host is told that
-- the transfer succeeded.
unfoldable pub get_packets : MassStorage → Option (MassStorage × Packet)
get_packets s = elim s.pipe [
  | [] ↦ none
  | tag ∷ pipe ↦ some (
    record s { pipe = pipe },
    new_packet 0x82 (0x55 ∷ 0x53 ∷ 0x42 ∷ 0x53 ∷ (take 4 tag ++ (0 ∷ 0 ∷ 0 ∷ 0 ∷ 0 ∷ []))) 13,
  )
]
