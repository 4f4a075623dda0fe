-- ===== src/GadgetFs/Descriptor.antt =====
-- Plugins/Hosts/HostProxy_GadgetFS.cpp: generate_descriptor. What the conversion of a polling
-- interval by `log10` gives is a parameter.
use usbproxy.Base.{
  ℕ, zero, suc, ◌+◌, ◌/◌, ◌%◌, Bool, not, Option, none, some, List, [], ◌∷◌, ◌++◌, ltb,
  if◌then◌else◌, length, Bytes,
}
use Prim.Native.Nat.{bit_and}
use usbproxy.Result.{Result, ok, fault, ◌>>=◌, deref, at_index, put_index, read_bytes}
use usbproxy.Descriptors.Endpoint.{byte, hid_length}
use usbproxy.Descriptors.Interface.{Interface, num_endpoints}
use usbproxy.Descriptors.Configuration.{Configuration}
use usbproxy.Descriptors.Configuration.Access.{
  get_interface, get_full_descriptor, get_full_descriptor_length,
}
use usbproxy.DeviceQualifier
use usbproxy.DeviceQualifier.{DeviceQualifier}
use usbproxy.Device.{Device, num_configurations}
use usbproxy.Device.Access.{get_configuration}

abbrev pub usb_bufsize : ℕ
usb_bufsize = 7168

-- `memcpy` to the end of what is in the buffer.
unfoldable pub append : Bytes → Bytes → Result Bytes
append out bytes = if ltb usb_bufsize (length out + length bytes) then fault else ok (out ++ bytes)

-- The type, the attributes without remote wakeup, and the total length.
unfoldable pub stamp : Bytes → ℕ → Result Bytes
stamp bytes total = do
  a ← put_index bytes 1 2
  attributes ← at_index a 7
  b ← put_index a 7 (bit_and attributes 0xdf)
  c ← put_index b 2 (total % 256)
  put_index c 3 (total / 256 % 256)

unfoldable pub full_bytes : Configuration → Result Bytes
unfolding stamp
full_bytes c = do bytes ← get_full_descriptor c; stamp bytes (get_full_descriptor_length c)

-- The next `n` endpoint descriptors from `pos` on, with the position behind them.
unfoldable pub patch_endpoints : (ℕ → ℕ) → ℕ → ℕ → Bytes → Result (Bytes × ℕ)
patch_endpoints interval zero pos bytes = ok (bytes, pos)
patch_endpoints interval (suc n) pos bytes = do
  old ← at_index bytes (pos + 6)
  bytes' ← put_index bytes (pos + 6) (interval old)
  size ← at_index bytes' pos
  patch_endpoints interval n (pos + size) bytes'

abbrev pub generic_lengths : List Bytes → ℕ
generic_lengths [] = 0
generic_lengths (d ∷ ds) = byte d 0 + generic_lengths ds

-- Where the endpoint descriptors of an interface begin.
abbrev pub endpoints_at : Interface → ℕ → ℕ
endpoints_at i pos =
    pos
    + byte i.descriptor 0
    + elim i.hid_descriptor as (λ _. ℕ) [ none ↦ 0 | some h ↦ hid_length h ]
    + generic_lengths i.generic_descriptors

-- The active interfaces, for the next `n` of them; the buffer has all alternate settings.
unfoldable pub patch_interfaces : (ℕ → ℕ) → ℕ → ℕ → Configuration → ℕ → Bytes → Result Bytes
unfolding patch_endpoints
patch_interfaces interval zero number c pos bytes = ok bytes
patch_interfaces interval (suc n) number c pos bytes = do
  slot ← get_interface c number
  i ← deref slot
  r ← patch_endpoints interval (num_endpoints i) (endpoints_at i pos) bytes
  patch_interfaces interval n (suc number) c r.1 r.0

-- A configuration of the second loop: at full speed the intervals are converted.
unfoldable pub second_bytes : (ℕ → ℕ) → Bool → Configuration → Result Bytes
unfolding full_bytes patch_interfaces
second_bytes interval highspeed c = do
  bytes ← full_bytes c
  if highspeed then ok bytes else patch_interfaces interval (byte bytes 4) 0 c (byte bytes 0) bytes

-- The configuration at an index, of the qualifier where `other` says so and there is one.
unfoldable pub configuration_at :
    Bool → Option DeviceQualifier → Device → ℕ → Result (Option Configuration)
configuration_at other q d i = elim q [
  | none ↦ get_configuration d i
  | some q ↦ if other then DeviceQualifier.get_configuration q i else get_configuration d i
]

-- One of the two loops, for the next `n` indices.
unfoldable pub append_all :
    (Configuration → Result Bytes) → Bool → Device → ℕ → ℕ → Bytes → Result Bytes
unfolding append configuration_at
append_all bytes_of other d zero i out = ok out
append_all bytes_of other d (suc n) i out = do
  slot ← configuration_at other d.qualifier d i
  out' ← elim slot [ none ↦ ok out | some c ↦ (do bytes ← bytes_of c; append out bytes) ]
  append_all bytes_of other d n (suc i) out'

unfoldable pub generate_descriptor : (ℕ → ℕ) → Device → Result Bytes
unfolding append_all full_bytes second_bytes
generate_descriptor interval d = do
  a ← append_all full_bytes d.highspeed d (num_configurations d) 1 (0 ∷ 0 ∷ 0 ∷ 0 ∷ [])
  b ← append_all (second_bytes interval d.highspeed) (not d.highspeed) d (num_configurations d) 1 a
  device ← read_bytes 18 d.descriptor
  append b device
