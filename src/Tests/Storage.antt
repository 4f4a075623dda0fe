-- ===== src/Tests/Storage.antt =====
-- Plugins/Filters/PacketFilter_MassStorage.cpp on small inputs.
use usbproxy.Base.{
  ℕ, ◌≤◌, ◌≡◌, refl, true, false, none, some, List, [], ◌∷◌, ◌++◌, arith, ◌==◌, if◌then◌else◌,
  length, take, drop, replicate, length-replicate, Bytes,
}
use usbproxy.Result.{ok}
use usbproxy.Packet.{Packet}
use usbproxy.MassStorage.{MassStorage, idle, writing, find, cache_read, cache_write, block_size}
use usbproxy.MassStorage.Cache.{cache_read-cache_write}

abbrev ones : Bytes
ones = replicate 512 1

abbrev twos : Bytes
twos = replicate 512 2

ones-size : block_size ≤ length ones
ones-size = omega (arith, length-replicate {A = ℕ} 512 1)

twos-size : block_size ≤ length twos
twos-size = omega (arith, length-replicate {A = ℕ} 512 2)

cache_read-cache_write_example :
    (cache' : List (ℕ × Bytes)) × (cache_write [] 7 ones ≡ ok cache')
    × (cache_read cache' 7 twos ≡ ok (cache', take block_size ones ++ drop block_size twos))
    × (find 8 cache' ≡ (if 8 == 7 then some (take block_size ones) else find 8 []))
cache_read-cache_write_example = cache_read-cache_write [] 7 8 ones twos ones-size twos-size

nothing_cached : find 7 [] ≡ none
unfolding find
nothing_cached = refl

abbrev guard : MassStorage
guard = record {
  state = idle;
  tag = 0 ∷ 0 ∷ 0 ∷ 0 ∷ [];
  block_writes = true;
  cache_blocks = true;
  inband_signalling = false;
  inband_block_writes = true;
  unblock_password = [];
  block_password = [];
  block_count = 0;
  block_offset = 0;
  base_address = 0;
  block_cache = [];
  pipe = [];
}

abbrev packet : Bytes → ℕ → Packet
packet bytes len = record {
  endpoint = 2;
  length = len;
  filter = true;
  transmit = true;
  data_bytes = some bytes;
}

-- A command to write two blocks at address 9.
abbrev write_two : Bytes
write_two =
    0x55 ∷ 0x53 ∷ 0x42 ∷ 0x43 ∷ 4 ∷ 3 ∷ 2 ∷ 1 ∷ 0 ∷ 4 ∷ 0 ∷ 0 ∷ 0 ∷ 0 ∷ 10 ∷ 0x2a ∷ 0 ∷ 0 ∷ 0 ∷ 0
    ∷ 9 ∷ 0 ∷ 0 ∷ 2 ∷ 0 ∷ 0 ∷ 0 ∷ 0 ∷ 0 ∷ 0 ∷ 0 ∷ []

abbrev blocks : List Packet
blocks = packet ones 512 ∷ packet twos 512 ∷ []

abbrev lax : MassStorage
lax = record guard { state = writing; block_writes = false; base_address = 9 }

abbrev waiting : MassStorage
waiting = record guard { pipe = (4 ∷ 3 ∷ 2 ∷ 1 ∷ []) ∷ [] }
