-- ===== src/Packet.antt =====
-- lib/Packet.h, and the control request of the USB standard that it carries.
use usbproxy.Base.{ℕ, ◌/◌, ◌%◌, Bool, true, Option, some, [], ◌∷◌, Bytes, u16}

-- `usb_ctrlrequest`.
pub record CtrlRequest : Type 0 where
  pub request_type : ℕ
  pub request : ℕ
  pub value : ℕ
  pub index : ℕ
  pub length : ℕ

-- The eight bytes of a control request in memory, little-endian.
unfoldable pub request_bytes : CtrlRequest → Bytes
request_bytes r =
    r.request_type
    ∷ r.request
    ∷ (r.value % 256)
    ∷ (r.value / 256)
    ∷ (r.index % 256)
    ∷ (r.index / 256)
    ∷ (r.length % 256)
    ∷ (r.length / 256)
    ∷ []

-- `data` is `none` for the null pointer.
pub record Packet : Type 0 where
  pub endpoint : ℕ
  pub length : ℕ
  pub filter : Bool
  pub transmit : Bool
  pub data_bytes : Option Bytes

pub record SetupPacket : Type 0 where
  pub ctrl_req : CtrlRequest
  pub data_bytes : Option Bytes
  pub source : ℕ
  pub filter : Bool
  pub transmit : Bool
  pub filter_out : Bool
  pub transmit_out : Bool
  pub filter_in : Bool
  pub transmit_in : Bool

-- `std::shared_ptr<Packet>`: null, a packet of a data endpoint, or a setup packet.
pub data PacketPtr : Type 0 where
  nullptr : PacketPtr
  plain : Packet → PacketPtr
  setup : SetupPacket → PacketPtr

unfoldable pub new_packet : ℕ → Bytes → ℕ → Packet
new_packet endpoint bytes len = record {
  endpoint = endpoint;
  length = u16 len;
  filter = true;
  transmit = true;
  data_bytes = some bytes;
}

unfoldable pub new_setup : CtrlRequest → Option Bytes → SetupPacket
new_setup r bytes = record {
  ctrl_req = r;
  data_bytes = bytes;
  source = 0;
  filter = true;
  transmit = true;
  filter_out = true;
  transmit_out = true;
  filter_in = true;
  transmit_in = true;
}
