-- ===== src/MassStorage/Status.antt =====
-- The status packets that the injector makes up.
use usbproxy.Base.{ℕ, ◌≡◌, refl, true, some, List, [], ◌∷◌, Bytes}
use usbproxy.Result.{ok}
use usbproxy.Packet.{Packet, new_packet}
use usbproxy.MassStorage.{
  MassStorage, idle, filter_packet, classify, starts_with, dispatch, on_status, get_packets,
}

-- The packet that the injector makes of a waiting tag is a status packet to the filter: the filter
-- goes to the idle state, changes nothing else and has the packet sent on.
pub filter_packet-get_packets :
    (s : MassStorage) (t4 t5 t6 t7 : ℕ) (pipe : List Bytes)
    → s.pipe ≡ (t4 ∷ t5 ∷ t6 ∷ t7 ∷ []) ∷ pipe
    → (p : Packet) × (get_packets s ≡ some (record s { pipe = pipe }, p))
      × (filter_packet s p ≡ ok (record s { state = idle }, p))
      × (p.transmit ≡ true)
      × (p.endpoint ≡ 0x82)
unfolding get_packets filter_packet classify starts_with dispatch on_status new_packet
filter_packet-get_packets s t4 t5 t6 t7 pipe e = (
  new_packet 0x82 (0x55 ∷ 0x53 ∷ 0x42 ∷ 0x53 ∷ t4 ∷ t5 ∷ t6 ∷ t7 ∷ 0 ∷ 0 ∷ 0 ∷ 0 ∷ 0 ∷ []) 13,
  rw e refl,
  refl,
  refl,
  refl,
)
