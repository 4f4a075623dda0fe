-- ===== src/Descriptors/Endpoint.antt =====
-- lib/Endpoint.cpp and lib/HID.cpp.
use usbproxy.Base.{
  ℕ, suc, ◌+◌, ◌*◌, ◌/◌, ◌%◌, Bool, ◌&&◌, ◌||◌, not, [], ◌∷◌, ◌==◌, if◌then◌else◌, get_or, Bytes,
  has,
}
use usbproxy.Result.{Result, ok, ◌>>=◌, read_bytes, overlay}
use usbproxy.Descriptors.Errors.{DefinitionError, no_error, err_invalid_descriptor, obj_endpoint}
use Prim.Native.Nat.{bit_and}

-- Byte `i` of a structure.
abbrev pub byte : Bytes → ℕ → ℕ
byte d i = get_or d i 0

-- A little-endian 16-bit member at byte `i`.
abbrev pub word : Bytes → ℕ → ℕ
word d i = byte d i + 256 * byte d (suc i)

-- `usb_endpoint_descriptor` has nine bytes: bLength, bDescriptorType, bEndpointAddress, bmAttributes,
-- wMaxPacketSize (two), bInterval, bRefresh, bSynchAddress.
pub record Endpoint : Type 0 where
  pub descriptor : Bytes

-- The constructor from a buffer copies seven bytes; `junk` is what the new object held before.
unfoldable pub from_buffer : Bytes → Bytes → Result Endpoint
from_buffer junk p = do d ← read_bytes 7 p; raw ← overlay junk d; ok (record { descriptor = raw })

-- The constructor from the fields.
unfoldable pub from_fields : Bytes → ℕ → ℕ → ℕ → ℕ → Result Endpoint
from_fields junk address attributes max_packet_size interval = do
  raw ← overlay junk (
      7
      ∷ 5
      ∷ address
      ∷ attributes
      ∷ (max_packet_size % 256)
      ∷ (max_packet_size / 256 % 256)
      ∷ interval
      ∷ [])
  ok (record { descriptor = raw })

unfoldable pub endpoint_address : Endpoint → ℕ
endpoint_address ep = byte ep.descriptor 2

unfoldable pub get_full_descriptor_length : Endpoint → ℕ
get_full_descriptor_length ep = byte ep.descriptor 0

-- What is written at `*p`, which advances over it.
unfoldable pub get_full_descriptor : Endpoint → Result Bytes
get_full_descriptor ep = read_bytes (byte ep.descriptor 0) ep.descriptor

endpoint_error : ℕ → ℕ → ℕ → ℕ → Endpoint → DefinitionError
endpoint_error detail config_id interface_num interface_alternate ep = record {
  error = err_invalid_descriptor;
  error_detail = detail;
  object_type = obj_endpoint;
  config_id = config_id;
  interface_num = interface_num;
  interface_alternate = interface_alternate;
  endpoint_num = byte ep.descriptor 2;
}

-- `bmAttributes`: reserved bits, and synchronisation bits on an endpoint that is not isochronous.
abbrev pub bad_attributes : ℕ → Bool
bad_attributes a = has a 0xc0 || (not (bit_and a 0x03 == 1) && has a 0xfc)

abbrev pub bad_interval : ℕ → ℕ → Bool
bad_interval a interval =
    (bit_and a 0x03 == 1 && not (interval == 1)) || (bit_and a 0x03 == 3 && interval == 1)

unfoldable pub is_defined : Endpoint → ℕ → ℕ → ℕ → DefinitionError
unfolding endpoint_error
is_defined ep config_id interface_num interface_alternate =
    let d = ep.descriptor in
    let fails =
      λ (detail : ℕ). endpoint_error detail config_id interface_num interface_alternate ep in
    if not (byte d 0 == 7)
    then fails 1
    else if not (byte d 1 == 5)
    then fails 2
    else if has (byte d 2) 0x70
    then fails 3
    else if bad_attributes (byte d 3)
    then fails 4
    else if bad_interval (byte d 3) (byte d 6)
    then fails 5
    else no_error

-- `HID`: a copy of the descriptor, as long as its first byte says.
pub record Hid : Type 0 where
  pub descriptor : Bytes

unfoldable pub hid_from_buffer : Bytes → Result Hid
hid_from_buffer p = do d ← read_bytes (byte p 0) p; ok (record { descriptor = d })

unfoldable pub hid_length : Hid → ℕ
hid_length h = byte h.descriptor 0

unfoldable pub hid_full_descriptor : Hid → Result Bytes
hid_full_descriptor h = read_bytes (byte h.descriptor 0) h.descriptor
