-- ===== src/Rot13.antt =====
-- Plugins/Filters/PacketFilter_ROT13.cpp: the key codes of a keyboard report.
pub mod Twice
use usbproxy.Base.{ℕ, zero, suc, ◌+◌, ◌-◌, ◌&&◌, leb, if◌then◌else◌, Bytes, u8}
use usbproxy.Result.{Result, ok, ◌>>=◌, at_index, put_index}

-- A key code: 0x04 to 0x1d are the letters.
unfoldable pub rotated : ℕ → ℕ
rotated code =
    if leb code 0x1d && leb 0x04 code
    then (if leb code 0x10 then u8 (code + 13) else code - 13)
    else code

-- The loop over the data, for the next `n` bytes.
unfoldable pub rotate : ℕ → ℕ → Bytes → Result Bytes
unfolding rotated
rotate zero i bytes = ok bytes
rotate (suc n) i bytes = do
  code ← at_index bytes i
  bytes' ← put_index bytes i (rotated code)
  rotate n (suc i) bytes'

unfoldable pub filter_packet : Bytes → Result Bytes
unfolding rotate
filter_packet bytes = rotate 6 2 bytes
