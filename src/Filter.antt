-- ===== src/Filter.antt =====
-- lib/PacketFilter.cpp: which packets a filter is shown.
pub mod Matching
use usbproxy.Base.{
  fun_ext, ℕ, zero, suc, ◌+◌, ◌-◌, ◌*◌, ◌/◌, ◌%◌, ◌^◌, ◌≤◌, ◌<◌, min, max, ◌≡◌, refl, sym, ap, ap₂,
  subst, ◌∙◌, ◌≢◌, ◌↔◌, ◌⊎◌, inl, inr, Bool, true, false, ◌&&◌, ◌||◌, not, Option, none, some, List,
  [], ◌∷◌, ◌++◌, map, append-nil, append_assoc, arith, ltb, leb, ◌==◌, if◌then◌else◌, ltb→lt,
  lt→ltb, leb→le, le→leb, lt→leb, ==_iff, ==_refl, ==_ne, if-cases, below, below-holds, Bool-cases,
  Option-cases, length, get_elem?, get_or, set, take, drop, replicate, length-append, length-set,
  get_elem?-set_self, get_elem?-set_ne, get_elem?-none, get_elem?-some, get_elem?-append_left,
  get_elem?-append_right, get_elem?-inside, get_elem?-replicate, get_elem?-take, take-append_length,
  drop-append_length, take-append_left, take_all, length-take, length-drop, length-replicate, All,
  All-append, All-get_elem?, All-set, All-replicate, get_elem?-at, set-at, Bytes, u8, u16, has,
}
use Prim.Native.Nat.{bit_and}
use usbproxy.Result.{Result, ok, fault, ◌>>=◌}
use usbproxy.Packet.{Packet, SetupPacket, request_bytes}

-- The two arrays have eight entries.
pub record PacketFilter : Type 0 where
  pub packet_header : Bytes
  pub packet_header_mask : Bytes
  pub packet_header_mask_length : ℕ
  pub packet_header_setup_out : Bool
  pub packet_header_setup_in : Bool

unfoldable pub init : PacketFilter
init = record {
  packet_header = replicate 8 0;
  packet_header_mask = replicate 8 0;
  packet_header_mask_length = 0;
  packet_header_setup_out = true;
  packet_header_setup_in = true;
}

-- The loop over `mask`: the index of its last non-zero byte, or what it was.
unfoldable pub last_nonzero : ℕ → ℕ → Bytes → ℕ
last_nonzero i found [] = found
last_nonzero i found (m ∷ ms) = last_nonzero (suc i) (if m == 0 then found else i) ms

-- Neither array is copied.
unfoldable pub set_packet_filter : PacketFilter → Bytes → Bytes → PacketFilter
unfolding last_nonzero
set_packet_filter f header mask = record f { packet_header_mask_length = last_nonzero 0 1 mask }

-- One comparison under the mask; the data is read only where the mask is not 0.
abbrev pub differs : ℕ → ℕ → ℕ → Bool
differs m h d = not (bit_and m d == bit_and m h)

-- The loop of both tests, over the first `n` positions.
unfoldable pub matches : ℕ → Bytes → Bytes → Bytes → Result Bool
matches zero ms hs ds = ok true
matches (suc n) [] hs ds = fault
matches (suc n) (m ∷ ms) [] ds = fault
matches (suc n) (m ∷ ms) (h ∷ hs) [] = if m == 0 then matches n ms hs [] else fault
matches (suc n) (m ∷ ms) (h ∷ hs) (d ∷ ds) =
    let rest = matches n ms hs ds in
    if m == 0 then rest else if differs m h d then ok false else rest

abbrev pub bytes_of : Option Bytes → Bytes
bytes_of none = []
bytes_of (some bs) = bs

unfoldable pub test_packet : PacketFilter → Packet → Result Bool
unfolding matches
test_packet f p =
    if ltb p.length f.packet_header_mask_length
    then ok false
    else matches f.packet_header_mask_length f.packet_header_mask f.packet_header
        (bytes_of p.data_bytes)

unfoldable pub test_setup_packet : PacketFilter → SetupPacket → Bool → Result Bool
unfolding matches
test_setup_packet f p direction_out =
    if not (
      (f.packet_header_setup_out || not direction_out)
      || (f.packet_header_setup_in || direction_out))
    then ok false
    else matches f.packet_header_mask_length f.packet_header_mask f.packet_header
        (request_bytes p.ctrl_req)
