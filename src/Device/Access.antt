-- ===== src/Device/Access.antt =====
-- The configurations and the qualifier of a device, and its check of definition: lib/Device.cpp.
use usbproxy.Base.{
  ℕ, zero, suc, Bool, true, false, ◌||◌, not, Option, none, some, List, [], ◌∷◌, ltb, ◌==◌,
  if◌then◌else◌, u8,
}
use usbproxy.Result.{Result, ok, ◌>>=◌, deref, at_index}
use usbproxy.Strings.{UsbString}
use usbproxy.Descriptors.Errors.{
  obj_config, obj_device, obj_string, err_missing_language, err_invalid_descriptor, err_null_object,
  DefinitionError, no_error, unless_error,
}
use usbproxy.Descriptors.Endpoint.{byte}
use usbproxy.Descriptors.Configuration.{Configuration}
use usbproxy.Descriptors.Configuration.Access.{
  get_interface_alternate, get_interface_alternate_count,
}
use usbproxy.DeviceQualifier
use usbproxy.DeviceQualifier.{
  DeviceQualifier, place, find, error_at, is_packet_size, configurations_defined,
}
use usbproxy.Device.{
  Device, num_configurations, manufacturer, product, serial_number, get_language_count,
  get_language_by_index,
}

unfoldable pub add_configuration : Device → Configuration → Result Device
unfolding place
add_configuration d c = do
  slots ← place (num_configurations d) d.configurations c
  ok (record d { configurations = slots })

unfoldable pub get_configuration : Device → ℕ → Result (Option Configuration)
unfolding find
get_configuration d index = find (num_configurations d) d.configurations index

-- The index is passed on as a `__u8`.
unfoldable pub get_active_configuration : Device → Result (Option Configuration)
unfolding get_configuration
get_active_configuration d = elim d.device_configuration_index [
  | none ↦ ok none
  | some index ↦ get_configuration d (u8 index)
]

unfoldable pub set_active_configuration : Device → ℕ → Device
set_active_configuration d index = record d {
  device_configuration_index =
      if ltb (num_configurations d) index || ltb index 1 then none else some index;
}

unfoldable pub set_device_qualifier : Device → Option DeviceQualifier → Device
set_device_qualifier d q = record d { qualifier = q }

-- The search of one language among the strings of an index.
unfoldable pub speaks : ℕ → List UsbString → Bool
speaks language_id [] = false
speaks language_id (t ∷ ts) = t.language_id == language_id || speaks language_id ts

-- The loop over the languages, for the next `n` of them.
unfoldable pub languages_defined : ℕ → ℕ → Device → ℕ → List UsbString → Result DefinitionError
unfolding speaks
languages_defined zero i d index list = ok no_error
languages_defined (suc n) i d index list =
    let rest = languages_defined n (suc i) d index list in
    get_language_by_index d (u8 i) >>= λ language_id.
    if speaks language_id list
    then rest
    else ok (error_at err_missing_language language_id obj_string index)

unfoldable pub is_string_defined : Device → ℕ → Result DefinitionError
unfolding languages_defined
is_string_defined d index = if index == 0 then ok no_error else (do
  slot ← at_index d.strings index
  elim slot [
    | none ↦ ok (error_at err_null_object 0 obj_string index)
    | some list ↦ (do count ← get_language_count d; languages_defined count 0 d index list)
  ])

-- The source's `if (rc.error) {return rc;}` after a check, with what follows it.
abbrev pub then_check : Result DefinitionError → Result DefinitionError → Result DefinitionError
then_check check rest = check >>= λ rc. unless_error rc rest (λ e. ok e)

-- The strings of the alternate settings of an interface, for the next `n` of them.
unfoldable pub alternates_named : ℕ → ℕ → ℕ → Configuration → Device → Result DefinitionError
unfolding is_string_defined
alternates_named zero number alternate c d = ok no_error
alternates_named (suc n) number alternate c d = do
  slot ← get_interface_alternate c number alternate
  i ← deref slot
  then_check (is_string_defined d (byte i.descriptor 8))
      (alternates_named n number (suc alternate) c d)

unfoldable pub interfaces_named : ℕ → ℕ → Configuration → Device → Result DefinitionError
unfolding alternates_named
interfaces_named zero number c d = ok no_error
interfaces_named (suc n) number c d = do
  count ← get_interface_alternate_count c number
  then_check (alternates_named count number 0 c d) (interfaces_named n (suc number) c d)

unfoldable pub configurations_named : List (Option Configuration) → Device → Result DefinitionError
unfolding interfaces_named
configurations_named [] d = ok no_error
configurations_named (slot ∷ slots) d = do
  c ← deref slot
  then_check (is_string_defined d (byte c.descriptor 6))
      (then_check (interfaces_named (byte c.descriptor 4) 0 c d) (configurations_named slots d))

-- The loop over the configurations of the qualifier, by `get_configuration(i)` from 0 on.
unfoldable pub qualifier_named : ℕ → ℕ → DeviceQualifier → Device → Result DefinitionError
unfolding is_string_defined
qualifier_named zero i q d = ok no_error
qualifier_named (suc n) i q d = do
  slot ← DeviceQualifier.get_configuration q i
  c ← deref slot
  then_check (is_string_defined d (byte c.descriptor 6)) (qualifier_named n (suc i) q d)

-- `!strings[0]||!strings[0][0]`
unfoldable pub has_language_string : Device → Result Bool
has_language_string d = do
  slot ← at_index d.strings 0
  ok (elim slot [ none ↦ false | some [] ↦ false | some (s ∷ _) ↦ true ])

-- `if (qualifier)`
unfoldable pub qualifier_defined : Option DeviceQualifier → Device → Result DefinitionError
unfolding qualifier_named
qualifier_defined none d = ok no_error
qualifier_defined (some q) d =
    then_check (ok (DeviceQualifier.is_defined q))
      (qualifier_named (DeviceQualifier.num_configurations q) 0 q d)

-- The checks of the strings that the descriptors name.
unfoldable pub named_defined : Device → Result DefinitionError
unfolding configurations_named qualifier_defined
named_defined d = then_check (is_string_defined d (manufacturer d)) (
    then_check (is_string_defined d (product d)) (
      then_check (is_string_defined d (serial_number d))
        (then_check (configurations_named d.configurations d) (qualifier_defined d.qualifier d))))

-- The checks of the strings, after those of the configurations.
unfoldable pub strings_defined : Device → Result DefinitionError
unfolding has_language_string named_defined
strings_defined d = do
  there ← has_language_string d
  if not there then ok (error_at err_null_object 0 obj_string 0) else (do
    count ← get_language_count d
    if count == 0 then ok (error_at err_missing_language 0 obj_string 0) else named_defined d)

unfoldable pub is_defined : Device → Result DefinitionError
unfolding strings_defined
is_defined d =
    if not (byte d.descriptor 0 == 18)
    then ok (error_at err_invalid_descriptor 1 obj_device 0)
    else if not (byte d.descriptor 1 == 1)
    then ok (error_at err_invalid_descriptor 2 obj_device 0)
    else if not (is_packet_size (byte d.descriptor 7))
    then ok (error_at err_invalid_descriptor 8 obj_device 0)
    else if num_configurations d == 0
    then ok (error_at err_invalid_descriptor 18 obj_device 0)
    else unless_error (configurations_defined obj_config false 0 d.configurations)
        (strings_defined d) (λ rc. ok rc)
