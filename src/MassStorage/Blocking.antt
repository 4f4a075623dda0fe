-- ===== src/MassStorage/Blocking.antt =====
-- Writes that are blocked.
use usbproxy.Base.{
  ℕ, ◌+◌, ◌*◌, ◌^◌, ◌≤◌, ◌<◌, ◌≡◌, ap, ◌∙◌, true, false, some, List, [], ◌∷◌, arith, length,
  get_elem?, Bytes,
}
use usbproxy.Result.{Result, ok, ◌>>=◌}
use usbproxy.Packet.{Packet}
use usbproxy.MassStorage.{
  bytes_at, starts_with, dispatch, MassStorage, Phase, writing, block_size, filter_packet, classify,
}

-- Packets in turn.
abbrev pub run : MassStorage → List Packet → Result (MassStorage × List Packet)
run s [] = ok (s, [])
run s (p ∷ ps) = do a ← filter_packet s p; b ← run a.0 ps; ok (b.0, a.1 ∷ b.1)

-- A data packet that holds at least a block.
pub record IsBlock (p : Packet) : Type 0 where
  pub contents : Bytes
  pub stored : p.data_bytes ≡ some contents
  pub whole : block_size ≤ length contents
  pub sized : length contents ≡ p.length

-- The filter is within a transfer whose writes it blocks, `left` blocks before the end.
record IsBlocking (s : MassStorage) (left : ℕ) : Type 0 where
  phase : s.state ≡ writing
  blocks : s.block_writes ≡ true
  quiet : s.inband_signalling ≡ false
  progress : s.block_offset + left ≡ s.block_count
  small : s.block_count < 2 ^ 32

pub classify-data :
    (state : Phase) (len : ℕ) (bytes : Bytes) → 64 < len → classify state len bytes ≡ ok state
unfolding classify
classify-data state len bytes h = ground arith

-- What is left of a packet that is not sent.
abbrev pub IsHeldBack : Packet → Type 0
IsHeldBack p = p.transmit ≡ false

pub filter_packet-dispatch :
    (s : MassStorage) (p : Packet) (bytes : Bytes) (kind : Phase)
    → p.data_bytes ≡ some bytes
    → classify s.state p.length bytes ≡ ok kind
    → filter_packet s p ≡ dispatch kind s p bytes
unfolding filter_packet
filter_packet-dispatch s p bytes kind e k =
    ap (λ d. classify s.state p.length (bytes_at d) >>= λ kind. dispatch kind s p (bytes_at d)) e
    ∙ ap (λ r. r >>= λ kind. dispatch kind s p bytes) k

-- A command block that starts a write of `count` blocks.
pub record IsWriteCommand (p : Packet) (tag : Bytes) (count : ℕ) : Type 0 where
  pub contents : Bytes
  pub stored : p.data_bytes ≡ some contents
  pub sized : p.length ≡ 31
  pub whole : length contents ≡ 31
  pub signature : starts_with (0x55 ∷ 0x53 ∷ 0x42 ∷ 0x43 ∷ []) contents ≡ ok true
  pub opcode : get_elem? contents 0x0f ≡ some 0x2a
  pub t4 : ℕ
  pub t5 : ℕ
  pub t6 : ℕ
  pub t7 : ℕ
  pub high : ℕ
  pub low : ℕ
  pub tag4 : get_elem? contents 4 ≡ some t4
  pub tag5 : get_elem? contents 5 ≡ some t5
  pub tag6 : get_elem? contents 6 ≡ some t6
  pub tag7 : get_elem? contents 7 ≡ some t7
  pub tagged : t4 ∷ t5 ∷ t6 ∷ t7 ∷ [] ≡ tag
  pub count_high : get_elem? contents 0x16 ≡ some high
  pub count_low : get_elem? contents 0x17 ≡ some low
  pub high_small : high < 256
  pub low_small : low < 256
  pub counted : high * 256 + low ≡ count
