-- ===== src/Device/Load.antt =====
-- The constructors of lib/Device.cpp, and the one of lib/DeviceQualifier.cpp that asks the device.
use usbproxy.Base.{
  ℕ, zero, suc, ◌+◌, ◌/◌, ◌%◌, max, Bool, true, false, Option, none, some, List, [], ◌∷◌, ◌==◌,
  if◌then◌else◌, take, replicate, Bytes,
}
use usbproxy.Result.{overlay, Result, ok, ◌>>=◌, at_index, put_index}
use usbproxy.Packet.{CtrlRequest}
use usbproxy.Strings.{UsbString}
use usbproxy.Descriptors.Endpoint.{byte}
use usbproxy.Descriptors.Configuration as Config
use usbproxy.Descriptors.Configuration.{Configuration, ask, get_descriptor}
use usbproxy.Descriptors.Configuration.Access.{
  get_interface_alternate, get_interface_alternate_count,
}
use usbproxy.DeviceQualifier.{DeviceQualifier}
use usbproxy.Device.{
  Proxy, Memory, State, Device, add_string_of, add_strings, manufacturer, product, serial_number,
}

-- `if (index) {add_string(index);}`
abbrev pub add_if_named : Bytes → Device → ℕ → Result Device
add_if_named block d index = if index == 0 then ok d else add_strings block d index

-- The strings of the alternate settings of an interface, for the next `n` of them.
unfoldable pub add_alternate_strings : Bytes → ℕ → ℕ → ℕ → Configuration → Device → Result Device
add_alternate_strings block zero number alternate c d = ok d
add_alternate_strings block (suc n) number alternate c d = do
  i ← get_interface_alternate c number alternate
  d' ← elim i [ none ↦ ok d | some i ↦ add_if_named block d (byte i.descriptor 8) ]
  add_alternate_strings block n number (suc alternate) c d'

-- The strings of the interfaces, for the next `n` of them.
unfoldable pub add_interface_strings : Bytes → ℕ → ℕ → Configuration → Device → Result Device
unfolding add_alternate_strings
add_interface_strings block zero number c d = ok d
add_interface_strings block (suc n) number c d = do
  count ← get_interface_alternate_count c number
  d' ← add_alternate_strings block count number 0 c d
  add_interface_strings block n (suc number) c d'

unfoldable pub add_configuration_strings : Bytes → Configuration → Device → Result Device
unfolding add_interface_strings
add_configuration_strings block c d = do
  d' ← add_if_named block d (byte c.descriptor 6)
  add_interface_strings block (byte c.descriptor 4) 0 c d'

-- The loop over the next `n` configurations, with those that it has made: of the device, or at its
-- other speed.
unfoldable pub load_configurations :
    Memory
    → Proxy
    → Bool
    → ℕ
    → ℕ
    → List (Option Configuration)
    → Device
    → Result (List (Option Configuration) × Device)
unfolding add_configuration_strings
load_configurations m p other_speed zero i slots d = ok (slots, d)
load_configurations m p other_speed (suc n) i slots d = do
  c ← Config.from_device p.replies m.endpoint_bytes i other_speed
  slots' ← put_index slots i (some c)
  d' ← add_configuration_strings m.block c d
  load_configurations m p other_speed n (suc i) slots' d'

-- The constructor of the qualifier, with the device that it adds strings to. A failed request
-- gives it the length 0, and the device drops it. (No proxy returns a positive code.)
unfoldable pub load_qualifier : Memory → Proxy → Device → Result (Option DeviceQualifier × Device)
unfolding load_configurations
load_qualifier m p d = elim (p.replies (get_descriptor 6 0 10)) [
  | none ↦ ok (none, d)
  | some reply ↦ (do
    raw ← overlay m.qualifier_bytes reply
    r ← load_configurations m p true (byte raw 8) 0 (replicate (byte raw 8) none) d
    let q : DeviceQualifier = record { descriptor = raw; configurations = r.0 }
    ok (if byte raw 0 == 0 then none else some q, r.1))
]

abbrev pub get_configuration_request : CtrlRequest
get_configuration_request = record {
  request_type = 0x80;
  request = 8;
  value = 0;
  index = 0;
  length = 1;
}

-- The configuration that the device has chosen, where it has an address.
unfoldable pub load_active : Memory → Proxy → Device → Result Device
load_active m p d =
    if p.address == 0
    then ok (record d { device_state = State.address; device_configuration_index = some 0 })
    else (do
      r ← ask p.replies get_configuration_request (take 1 m.block)
      active ← at_index r.0 0
      ok (record d {
        device_state = if active == 0 then State.address else State.configured;
        device_configuration_index = some active;
      }))

-- The device before its strings and configurations are read.
unfoldable pub blank : Bytes → Option Proxy → Device
blank descriptor proxy = record {
  descriptor = descriptor;
  device_address = 0;
  device_state = State.not_attached;
  device_configuration_index = none;
  highspeed = false;
  configurations = replicate (byte descriptor 17) none;
  strings = none ∷ [];
  max_string_idx = 0;
  proxy = proxy;
  qualifier = none;
}

-- The strings that the device descriptor names.
unfoldable pub load_strings : Memory → Device → Result Device
load_strings m d = do
  let count = max (manufacturer d) (max (product d) (serial_number d))
  d0 ←
      add_string_of m.block
        (record d { strings = replicate (count + 1) none; max_string_idx = count }) 0 0
  d1 ← add_if_named m.block d0 (manufacturer d)
  d2 ← add_if_named m.block d1 (product d)
  add_if_named m.block d2 (serial_number d)

-- The constructor from a proxy.
unfoldable pub from_proxy : Memory → Proxy → Result Device
unfolding blank load_strings load_configurations load_qualifier load_active
from_proxy m p = do
  raw ← ask p.replies (get_descriptor 1 0 18) m.device_bytes
  d ← load_strings m (blank raw.0 (some p))
  cs ← load_configurations m p false (byte raw.0 17) 0 d.configurations d
  q ← load_qualifier m p (record cs.1 { configurations = cs.0 })
  load_active m p (record q.1 {
    qualifier = q.0;
    device_state = State.default_state;
    device_address = p.address;
    highspeed = p.is_highspeed;
  })

-- String 0 with the one language 0x0409.
abbrev pub english : UsbString
english = record { descriptor = 4 ∷ 3 ∷ 9 ∷ 4 ∷ []; index = 0; language_id = 0 }

-- The constructor from a descriptor.
unfoldable pub from_descriptor : Bytes → Device
unfolding blank
from_descriptor descriptor = record (blank descriptor none) { strings = some (english ∷ []) ∷ [] }

-- The constructor from the fields.
unfoldable pub from_fields : ℕ → ℕ → ℕ → ℕ → ℕ → ℕ → ℕ → ℕ → ℕ → ℕ → ℕ → ℕ → Device
unfolding from_descriptor
from_fields usb device_class sub_class protocol max_packet_size vendor product_id release maker
      product serial count =
    from_descriptor (
      18
      ∷ 1
      ∷ usb % 256
      ∷ usb / 256
      ∷ device_class
      ∷ sub_class
      ∷ protocol
      ∷ max_packet_size
      ∷ vendor % 256
      ∷ vendor / 256
      ∷ product_id % 256
      ∷ product_id / 256
      ∷ release % 256
      ∷ release / 256
      ∷ maker
      ∷ product
      ∷ serial
      ∷ count
      ∷ [])
