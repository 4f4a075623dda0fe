-- ===== src/Tests/Models.antt =====
-- lib/Device.cpp and lib/DeviceQualifier.cpp on a small device.

use usbproxy.Device.Spoken.{add_strings-is_string_defined}
use usbproxy.Device.Checked.{is_defined-ne-no_error}
use usbproxy.Descriptors.Configuration.{Configuration}
use usbproxy.Device.Languages.{AreLanguages}
use usbproxy.Device.Access.{is_defined, is_string_defined}
use usbproxy.Device.Storing.{IsSized}
use usbproxy.Descriptors.Errors.{no_error}
use usbproxy.DeviceQualifier.{DeviceQualifier}
use usbproxy.Base.{ℕ, ◌≡◌, refl, ◌≢◌, false, none, some, [], ◌∷◌, arith, replicate, Bytes}
use usbproxy.Result.{ok}
use usbproxy.DeviceQualifier
use usbproxy.Strings.{UsbString}
use usbproxy.Device.{add_strings, Device, Proxy, add_string, get_string}
use usbproxy.Device.Load
use usbproxy.Device.Lookup.{get_string-add_string_ne, get_string-add_string}

abbrev device_bytes : Bytes
device_bytes = 18 ∷ 1 ∷ 0 ∷ 2 ∷ 0 ∷ 0 ∷ 0 ∷ 8 ∷ 1 ∷ 0 ∷ 2 ∷ 0 ∷ 0 ∷ 1 ∷ 0 ∷ 0 ∷ 0 ∷ 1 ∷ []

-- A device that answers each request for a string by the string "A".
abbrev speaker : Proxy
speaker = record { replies = λ r. some (4 ∷ 3 ∷ 65 ∷ 0 ∷ []); address = 1; is_highspeed = false }

abbrev small : Device
small = record (Load.from_descriptor device_bytes) { proxy = some speaker }

abbrev letter : ℕ → UsbString
letter index = record {
  descriptor = 4 ∷ 3 ∷ 65 ∷ 0 ∷ 0 ∷ 0 ∷ 0 ∷ 0 ∷ [];
  index = index;
  language_id = 0x409;
}

abbrev with_letter : Device
with_letter = record small {
  strings = some (Load.english ∷ []) ∷ none ∷ some (letter 2 ∷ []) ∷ [];
  max_string_idx = 2;
}

get_string-add_string_example : get_string with_letter 2 0x409 ≡ ok (some (letter 2))
unfolding add_string Load.from_descriptor usbproxy.Strings.get_char_count
get_string-add_string_example =
    get_string-add_string (0 ∷ 0 ∷ []) small with_letter (letter 2) (omega arith) refl

-- The string at index 3 in English beside it.
abbrev with_two : Device
with_two = record with_letter {
  strings = some (Load.english ∷ []) ∷ none ∷ some (letter 2 ∷ []) ∷ some (letter 3 ∷ []) ∷ [];
  max_string_idx = 3;
}

get_string-add_string_ne_example :
    IsSized with_two × (get_string with_two 2 0x409 ≡ get_string with_letter 2 0x409)
unfolding add_string Load.from_descriptor usbproxy.Strings.get_char_count
get_string-add_string_ne_example =
    get_string-add_string_ne (0 ∷ 0 ∷ []) with_letter with_two (letter 3) 2 0x409 refl (omega arith)
      (omega arith) (omega arith) refl

-- The device after it has been asked for string 1 in its one language.
abbrev spoken : Device
spoken = record small {
  strings =
      some (Load.english ∷ [])
      ∷ some (record { descriptor = 4 ∷ 3 ∷ 65 ∷ 0 ∷ []; index = 1; language_id = 0x409 } ∷ [])
      ∷ [];
  max_string_idx = 1;
}

english-AreLanguages : AreLanguages (0x409 ∷ [])
english-AreLanguages = record {
  some_word = omega arith;
  few = omega arith;
  words = (omega arith, tt);
}

add_strings-is_string_defined_example : is_string_defined spoken 1 ≡ ok no_error
unfolding add_strings Load.from_descriptor usbproxy.Strings.get_char_count
    usbproxy.Strings.word_bytes usbproxy.Strings.from_device
add_strings-is_string_defined_example =
    add_strings-is_string_defined (replicate 8 0) small spoken speaker (0x409 ∷ []) 1
      english-AreLanguages refl refl refl (omega arith) refl

abbrev at_full_speed : DeviceQualifier
at_full_speed = DeviceQualifier.from_descriptor (10 ∷ 6 ∷ 0 ∷ 2 ∷ 0 ∷ 0 ∷ 0 ∷ 64 ∷ 1 ∷ 0 ∷ [])

is_defined-ne-no_error_example :
    is_defined (record small { qualifier = some at_full_speed }) ≢ ok no_error
is_defined-ne-no_error_example =
    is_defined-ne-no_error (record small { qualifier = some at_full_speed }) at_full_speed refl

abbrev one_config : Configuration
one_config = record {
  descriptor = 9 ∷ 2 ∷ 9 ∷ 0 ∷ 0 ∷ 1 ∷ 0 ∷ 0x80 ∷ 50 ∷ [];
  interface_groups = [];
}
