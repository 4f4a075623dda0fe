-- ===== src/Tests/Datagrams.antt =====
-- Plugins/Injectors/Injector_UDP.cpp on a small input.
use usbproxy.Base.{ℕ, ◌≡◌, some, [], ◌∷◌, arith, replicate, length-replicate, Bytes}
use usbproxy.Result.{ok}
use usbproxy.Injector.{injects}
use usbproxy.Udp.{get_packets}
use usbproxy.Udp.Datagrams.{datagram, packet_of, get_packets-datagram}

-- Two bytes for endpoint 0x81, not to be filtered.
get_packets-datagram_example :
    (buf : Bytes) × (get_packets (replicate 1472 0) (some (datagram 0x81 1 (7 ∷ 8 ∷ [])))
      ≡ ok (buf, injects (packet_of 0x81 1 (7 ∷ 8 ∷ []))))
get_packets-datagram_example =
    get_packets-datagram (replicate 1472 0) 0x81 1 (7 ∷ 8 ∷ []) (length-replicate {A = ℕ} 1472 0)
      (omega arith) (omega arith)
