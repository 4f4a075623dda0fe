-- ===== src/Udp/Datagrams.antt =====
-- What a datagram injects.
use usbproxy.Base.{
  ℕ, ◌+◌, ◌*◌, ◌/◌, ◌%◌, ◌≤◌, ◌<◌, ◌≡◌, refl, ◌≢◌, true, false, not, some, ◌∷◌, ◌++◌, arith, leb,
  ◌==◌, le→leb, ==_ne, length, drop, length-append, take-append_length, Bytes, has,
}
use usbproxy.Result.{ok, read_bytes}
use usbproxy.Packet.{Packet, new_packet}
use usbproxy.Injector.{injects}
use usbproxy.Udp.{udp_buffer_size, packet_in, packets_in, get_packets}

-- The datagram for a packet: the endpoint, the flags, the length with the high byte first, the data.
abbrev pub datagram : ℕ → ℕ → Bytes → Bytes
datagram endpoint flags data_bytes =
    endpoint ∷ (flags ∷ ((length data_bytes / 256) ∷ ((length data_bytes % 256) ∷ data_bytes)))

abbrev pub packet_of : ℕ → ℕ → Bytes → Packet
packet_of endpoint flags data_bytes = record {
  endpoint = endpoint;
  length = length data_bytes;
  filter = not (has flags 1);
  transmit = not (has flags 2);
  data_bytes = some data_bytes;
}

read_bytes-front : (bytes rest : Bytes) → read_bytes (length bytes) (bytes ++ rest) ≡ ok bytes
read_bytes-front bytes rest =
    rw
      (
        le→leb (length bytes) (length (bytes ++ rest)) (omega (arith, length-append bytes rest)),
        take-append_length bytes rest,
      )
      refl

packet_in-datagram :
    (endpoint flags : ℕ) (data_bytes rest : Bytes)
    → length data_bytes < 65536
    → packet_in (datagram endpoint flags data_bytes ++ rest) endpoint flags
      ≡ ok (packet_of endpoint flags data_bytes)
unfolding packet_in new_packet
packet_in-datagram endpoint flags data_bytes rest l =
    let size : length data_bytes / 256 * 256 + length data_bytes % 256 ≡ length data_bytes =
      omega arith in
    let narrow : length data_bytes % 65536 ≡ length data_bytes = omega arith in
    rw (size, read_bytes-front data_bytes rest, narrow) refl

-- A datagram for an endpoint other than 0, if the buffer of 1472 bytes can hold it, injects the
-- packet with its data, its length and its two flags, whatever the buffer held before.
pub get_packets-datagram :
    (held : Bytes) (endpoint flags : ℕ) (data_bytes : Bytes)
    → length held ≡ udp_buffer_size
    → endpoint ≢ 0
    → length (datagram endpoint flags data_bytes) ≤ udp_buffer_size
    → (buf : Bytes) × (get_packets held (some (datagram endpoint flags data_bytes))
        ≡ ok (buf, injects (packet_of endpoint flags data_bytes)))
unfolding get_packets packets_in
get_packets-datagram held endpoint flags data_bytes h ne fits =
    let rest = drop (length (datagram endpoint flags data_bytes)) held in
    let room : leb (length (datagram endpoint flags data_bytes)) (length held) ≡ true =
      le→leb (length (datagram endpoint flags data_bytes)) (length held) (omega (arith, h)) in
    let addressed : (endpoint == 0) ≡ false = ==_ne endpoint 0 ne in
    let packet = packet_in-datagram endpoint flags data_bytes rest (omega arith) in
    (datagram endpoint flags data_bytes ++ rest, rw (room, addressed, packet) refl)
