-- ===== src/Udp.antt =====
-- Plugins/Injectors/Injector_UDP.cpp and Injector_UDPHID.cpp, and
-- Plugins/Filters/PacketFilter_UDPHID.cpp: packets that come in datagrams. The sockets are left out.
pub mod Datagrams
use usbproxy.Base.{
  ℕ, zero, suc, ◌+◌, ◌*◌, ◌&&◌, not, Option, none, some, [], ◌∷◌, ◌++◌, ◌==◌, if◌then◌else◌, length,
  take, drop, Bytes, has,
}
use usbproxy.Result.{Result, ok, ◌>>=◌, at_index, put_index, read_bytes, overlay}
use usbproxy.Packet.{CtrlRequest, Packet, SetupPacket, new_packet, new_setup}
use Prim.Native.Nat.{bit_or}
use usbproxy.Injector.{Injected, injects, injects_setup, nothing}

abbrev pub udp_buffer_size : ℕ
udp_buffer_size = 1472

-- A word of two bytes, the high one first, and one with the low one first.
abbrev pub word_at : Bytes → ℕ → Result ℕ
word_at buf i = do high ← at_index buf i; low ← at_index buf (i + 1); ok (high * 256 + low)

abbrev pub little_at : Bytes → ℕ → Result ℕ
little_at buf i = do low ← at_index buf i; high ← at_index buf (i + 1); ok (low + high * 256)

-- A packet for a data endpoint. Its length is not compared with that of the datagram.
unfoldable pub packet_in : Bytes → ℕ → ℕ → Result Packet
unfolding new_packet
packet_in buf endpoint flags = do
  size ← word_at buf 2
  bytes ← read_bytes size (drop 4 buf)
  ok (record (new_packet endpoint bytes size) {
    filter = not (has flags 1);
    transmit = not (has flags 2);
  })

-- A control request, in the bytes from index 3 on.
unfoldable pub request_in : Bytes → Result CtrlRequest
request_in buf = do
  request_type ← at_index buf 3
  request ← at_index buf 4
  value ← little_at buf 5
  index ← little_at buf 7
  size ← little_at buf 9
  ok (record {
    request_type = request_type;
    request = request;
    value = value;
    index = index;
    length = size;
  })

unfoldable pub setup_in : Bytes → ℕ → Result SetupPacket
unfolding request_in new_setup
setup_in buf flags = do
  s ← request_in buf
  bytes ←
      if has s.request_type 0x80
      then ok none
      else (do body ← read_bytes s.length (drop 11 buf); ok (some body))
  ok (record (new_setup s bytes) {
    filter_out = not (has flags 1);
    transmit_out = not (has flags 2);
    filter_in = not (has flags 4);
    transmit_in = not (has flags 8);
  })

-- What the system says to `get_packets`: no datagram in time, or an error, or its bytes.
unfoldable pub packets_in : Bytes → Result Injected
unfolding packet_in setup_in
packets_in buf = do
  endpoint ← at_index buf 0
  flags ← at_index buf 1
  if not (endpoint == 0)
      then (do p ← packet_in buf endpoint flags; ok (injects p))
      else (do s ← setup_in buf flags; ok (injects_setup s))

-- `get_packets`, with what the buffer held before.
unfoldable pub get_packets : Bytes → Option Bytes → Result (Bytes × Injected)
unfolding packets_in
get_packets held none = ok (held, nothing)
get_packets held (some []) = ok (held, nothing)
get_packets held (some (b ∷ bytes)) = do
  buf ← overlay held (b ∷ bytes)
  found ← packets_in buf
  ok (buf, found)

-- Injector_UDPHID also keeps the state of a controller out of each report of 20 bytes.
unfoldable pub noted : Bytes → Injected → Result Bytes
noted report (injects p) = elim p.data_bytes [
  | none ↦ ok report
  | some bytes ↦
      if p.length == 20
      then (do
        first ← at_index bytes 0
        second ← at_index bytes 1
        if first == 0 && second == 20
            then (do
              body ← read_bytes 12 (drop 2 bytes)
              rest ← overlay (drop 2 report) body
              ok (take 2 report ++ rest))
            else ok report)
      else ok report
]
noted report (injects_setup s) = ok report
noted report nothing = ok report

-- PacketFilter_UDPHID joins it with a report of the device: the buttons by a bitwise or, the other
-- bytes where they are not 0, for the next `n` of them.
unfoldable pub merge : ℕ → ℕ → Bytes → Bytes → Result Bytes
merge zero i report bytes = ok bytes
merge (suc n) i report bytes = do
  new ← at_index report i
  bytes' ← if new == 0 then ok bytes else put_index bytes i new
  merge n (suc i) report bytes'

abbrev pub join_at : ℕ → Bytes → Bytes → Result Bytes
join_at i report bytes = do
  old ← at_index bytes i
  new ← at_index report i
  put_index bytes i (bit_or old new)

unfoldable pub filter_packet : Bytes → ℕ → Bytes → Result Bytes
unfolding merge
filter_packet report size bytes =
    if not (size == 20)
    then ok bytes
    else (do a ← join_at 2 report bytes; b ← join_at 3 report a; merge 10 4 report b)
