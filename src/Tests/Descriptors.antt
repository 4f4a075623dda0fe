-- ===== src/Tests/Descriptors.antt =====
-- The descriptors of a small device.
use usbproxy.Base.{
  ℕ, ◌≡◌, refl, ◌≢◌, ◌⊎◌, none, some, List, [], ◌∷◌, ◌++◌, arith, ◌==◌, if◌then◌else◌, length,
  replicate, Bytes,
}
use usbproxy.Result.{ok}
use usbproxy.Descriptors.Interface.{
  Interface, lead, body, from_buffer, get_full_descriptor, get_full_descriptor_length,
  alternate_setting,
}
use usbproxy.Descriptors.Interface.Parse.{Parts, IsWhole, IsLeading, wire, assemble}
use usbproxy.Descriptors.Interface.RoundTrip.{flat}
use usbproxy.Descriptors.Interface.Whole.{from_buffer-wire, from_buffer-get_full_descriptor}
use usbproxy.Descriptors.Interface.ZeroLength.{from_buffer-zero}
use usbproxy.Descriptors.Group.{Group, init, add_interface}
use usbproxy.Descriptors.Group.Slots.{IsValid, add_interface-IsValid}
use usbproxy.Descriptors.Configuration.{Device}
use usbproxy.Descriptors.Configuration.Load.{wires}

abbrev junk : Bytes
junk = replicate 9 0xaa

-- A keyboard: a HID descriptor, a vendor descriptor and one interrupt endpoint.
abbrev keyboard : Parts
keyboard = record {
  header = 9 ∷ 4 ∷ 0 ∷ 0 ∷ 1 ∷ 3 ∷ 1 ∷ 1 ∷ 0 ∷ [];
  hid = some (9 ∷ 0x21 ∷ 0x11 ∷ 1 ∷ 0 ∷ 1 ∷ 0x22 ∷ 63 ∷ 0 ∷ []);
  generics = (4 ∷ 0xff ∷ 1 ∷ 2 ∷ []) ∷ [];
  endpoints = (7 ∷ 5 ∷ 0x81 ∷ 3 ∷ 8 ∷ 0 ∷ 10 ∷ 0xaa ∷ 0xaa ∷ []) ∷ [];
}

keyboard-IsWhole : IsWhole junk keyboard
keyboard-IsWhole = record {
  size = refl;
  len = refl;
  kind = refl;
  endpoint_count = refl;
  each_endpoint = (record { size = refl; len = refl; kind = refl; untouched = refl }, tt);
  hid_fits = record { chunk = record { len = refl; typed = omega arith }; kind = refl };
  each_generic = (
    record {
      chunk = record { len = refl; typed = omega arith };
      not_interface = omega arith;
      not_endpoint = omega arith;
      not_hid = omega arith;
    },
    tt,
  );
}

-- An interface association descriptor, which may stand before an interface.
abbrev association : Bytes
association = 8 ∷ 11 ∷ 0 ∷ 1 ∷ 3 ∷ 1 ∷ 1 ∷ 0 ∷ []

association-IsLeading : IsLeading association
association-IsLeading = record {
  chunk = record { len = refl; typed = omega arith };
  not_interface = omega arith;
}

from_buffer-wire_example :
    from_buffer junk (flat (association ∷ []) ++ (wire keyboard ++ []))
    ≡ ok (assemble (association ∷ []) keyboard, [])
from_buffer-wire_example =
    from_buffer-wire junk (association ∷ []) keyboard [] refl (association-IsLeading, tt)
      keyboard-IsWhole (omega arith) tt

from_buffer-get_full_descriptor_example :
    (w : Bytes) × (get_full_descriptor (assemble [] keyboard) ≡ ok w)
    × (get_full_descriptor_length (assemble [] keyboard) ≡ length w)
    × (from_buffer junk (w ++ []) ≡ ok (assemble [] keyboard, []))
from_buffer-get_full_descriptor_example =
    from_buffer-get_full_descriptor junk keyboard [] refl keyboard-IsWhole (omega arith) tt

from_buffer-zero_example :
    ((fuel : ℕ) (ds : List Bytes) (r : List Bytes × Bytes) → lead fuel ds (0 ∷ 11 ∷ []) ≢ ok r)
    × ((fuel ep : ℕ) (i : Interface) (r : Interface × Bytes)
        → body fuel junk i ep (0 ∷ 11 ∷ []) ≢ ok r)
    × ((r : Interface × Bytes) → from_buffer junk (0 ∷ 11 ∷ []) ≢ ok r)
from_buffer-zero_example = from_buffer-zero junk 11 [] (omega arith)

init-IsValid_first : IsValid (init 0)
unfolding init
init-IsValid_first = record { sized = refl; small = omega arith }

add_interface-IsValid_example :
    (g' : Group) × (add_interface (init 0) (assemble [] keyboard) ≡ ok g')
    × ((IsValid g' × (alternate_setting (assemble [] keyboard) ≢ 255))
        ⊎ ((g'.alternate_count ≡ 0) × (alternate_setting (assemble [] keyboard) ≡ 255)))
add_interface-IsValid_example =
    add_interface-IsValid (init 0) (assemble [] keyboard) init-IsValid_first (omega arith)

with_keyboard : Group
with_keyboard = record {
  number = 0;
  alternate_count = 1;
  active_alternate_index = none;
  interfaces = some (assemble [] keyboard) ∷ [];
}

abbrev header : Bytes
header = 9 ∷ 2 ∷ 38 ∷ 0 ∷ 1 ∷ 1 ∷ 0 ∷ 0xa0 ∷ 50 ∷ []

abbrev device : Device
device r = if r.length == 9 then some header else some (header ++ wires (keyboard ∷ []))
