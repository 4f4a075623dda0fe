-- ===== src/Descriptors/Configuration/Access.antt =====
-- The access methods of lib/Configuration.cpp, and its check of definition.
use usbproxy.Base.{
  ℕ, suc, ◌+◌, ◌/◌, ◌%◌, Bool, not, Option, none, some, List, [], ◌∷◌, ◌++◌, leb, ◌==◌,
  if◌then◌else◌, replicate, Bytes,
}
use Prim.Native.Nat.{bit_and, bit_or}
use usbproxy.Result.{Result, ok, ◌>>=◌, at_index, read_bytes}
use usbproxy.Descriptors.Errors.{
  ErrorKind, DefinitionError, no_error, unless_error, obj_config, obj_os_config, obj_interfacegroup,
  err_invalid_descriptor, err_null_object, err_misplaced_object,
}
use usbproxy.Descriptors.Endpoint.{byte, word}
use usbproxy.Descriptors.Interface.{Interface}
use usbproxy.Descriptors.Group
use usbproxy.Descriptors.Group.{Group}
use usbproxy.Descriptors.Configuration.{Configuration}

-- The constructor from fields.
unfoldable pub from_fields : ℕ → ℕ → ℕ → ℕ → ℕ → ℕ → Bool → Configuration
from_fields total interfaces value index attributes power high_speed = record {
  descriptor =
      9
      ∷ (if high_speed then 7 else 2)
      ∷ total % 256
      ∷ total / 256
      ∷ interfaces
      ∷ value
      ∷ index
      ∷ attributes
      ∷ power
      ∷ [];
  interface_groups = replicate interfaces none;
}

-- `none` is the null pointer.
unfoldable pub get_interface_alternate : Configuration → ℕ → ℕ → Result (Option Interface)
get_interface_alternate c number alternate =
    if leb (byte c.descriptor 4) number then ok none else (do
      slot ← at_index c.interface_groups number
      elim slot [ none ↦ ok none | some g ↦ Group.get_interface g alternate ])

unfoldable pub get_interface : Configuration → ℕ → Result (Option Interface)
get_interface c number = if leb (byte c.descriptor 4) number then ok none else (do
  slot ← at_index c.interface_groups number
  elim slot [ none ↦ ok none | some g ↦ Group.get_active_interface g ])

-- The number is not tested.
unfoldable pub get_interface_alternate_count : Configuration → ℕ → Result ℕ
get_interface_alternate_count c number = do
  slot ← at_index c.interface_groups number
  ok (elim slot [ none ↦ 0 | some g ↦ g.alternate_count ])

unfoldable pub full_length_groups : List (Option Group) → ℕ
full_length_groups [] = 0
full_length_groups (none ∷ gs) = full_length_groups gs
full_length_groups (some g ∷ gs) = Group.get_full_descriptor_length g + full_length_groups gs

unfoldable pub get_full_descriptor_length : Configuration → ℕ
unfolding full_length_groups
get_full_descriptor_length c = byte c.descriptor 0 + full_length_groups c.interface_groups

unfoldable pub full_groups : List (Option Group) → Result Bytes
full_groups [] = ok []
full_groups (none ∷ gs) = full_groups gs
full_groups (some g ∷ gs) = do
  here ← Group.get_full_descriptor g
  after ← full_groups gs
  ok (here ++ after)

-- What is written to the buffer.
unfoldable pub get_full_descriptor : Configuration → Result Bytes
unfolding full_groups
get_full_descriptor c = do
  d ← read_bytes (byte c.descriptor 0) c.descriptor
  gs ← full_groups c.interface_groups
  ok (d ++ gs)

unfoldable pub is_highspeed : Configuration → Bool
is_highspeed c = byte c.descriptor 1 == 7

-- The identifier in an error: the configuration value, with the high bit for another speed.
abbrev pub error_id : Configuration → Bool → ℕ
error_id c high_speed =
    if high_speed then bit_or 0x80 (byte c.descriptor 5) else byte c.descriptor 5

config_error : Configuration → Bool → ℕ → DefinitionError
config_error c high_speed detail = record {
  error = err_invalid_descriptor;
  error_detail = detail;
  object_type = if high_speed then obj_os_config else obj_config;
  config_id = error_id c high_speed;
  interface_num = 0;
  interface_alternate = 0;
  endpoint_num = 0;
}

slot_error : ErrorKind → ℕ → ℕ → ℕ → DefinitionError
slot_error kind detail config_id index = record {
  error = kind;
  error_detail = detail;
  object_type = obj_interfacegroup;
  config_id = config_id;
  interface_num = index;
  interface_alternate = 0;
  endpoint_num = 0;
}

-- The loop over the groups, from `index` on.
unfoldable pub groups_defined : ℕ → ℕ → List (Option Group) → DefinitionError
unfolding slot_error
groups_defined config_id index [] = no_error
groups_defined config_id index (none ∷ gs) = slot_error err_null_object 0 config_id index
groups_defined config_id index (some g ∷ gs) =
    let rest = groups_defined config_id (suc index) gs in
    if not (g.number == index)
    then slot_error err_misplaced_object g.number config_id index
    else unless_error (Group.is_defined g config_id) rest (λ rc. rc)

unfoldable pub is_defined : Configuration → Bool → DefinitionError
unfolding config_error groups_defined get_full_descriptor_length
is_defined c high_speed =
    if not (byte c.descriptor 0 == 9)
    then config_error c high_speed 1
    else if not (byte c.descriptor 1 == (if high_speed then 7 else 2))
    then config_error c high_speed 2
    else if not (word c.descriptor 2 == get_full_descriptor_length c)
    then config_error c high_speed 3
    else if byte c.descriptor 4 == 0
    then config_error c high_speed 5
    else if not (bit_and (byte c.descriptor 7) 0x9f == 0x80)
    then config_error c high_speed 8
    else groups_defined (error_id c high_speed) 0 c.interface_groups
