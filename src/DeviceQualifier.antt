-- ===== src/DeviceQualifier.antt =====
-- lib/DeviceQualifier.cpp: the configurations of a device at its other speed. The pointer to the
-- device and the printing are left out.
use usbproxy.Base.{
  ℕ, suc, ◌+◌, ◌-◌, ◌/◌, ◌%◌, Bool, true, ◌||◌, not, Option, none, some, List, [], ◌∷◌, ltb, ◌==◌,
  if◌then◌else◌, replicate, Bytes,
}
use usbproxy.Result.{Result, ok, fault, ◌>>=◌, at_index, put_index}
use usbproxy.Descriptors.Errors.{
  obj_os_config, err_misplaced_object, obj_qualifier, err_null_object, err_invalid_descriptor,
  DefinitionError, ErrorKind, ObjType, no_error, unless_error,
}
use usbproxy.Descriptors.Endpoint.{byte}
use usbproxy.Descriptors.Configuration.{Configuration}
use usbproxy.Descriptors.Configuration.Access

-- `usb_qualifier_descriptor`, ten bytes.
pub record DeviceQualifier : Type 0 where
  pub descriptor : Bytes
  pub configurations : List (Option Configuration)

abbrev pub num_configurations : DeviceQualifier → ℕ
num_configurations q = byte q.descriptor 8

-- The constructor from a descriptor.
unfoldable pub from_descriptor : Bytes → DeviceQualifier
from_descriptor d = record { descriptor = d; configurations = replicate (byte d 8) none }

-- The constructor from the fields; the last byte, `bRESERVED`, is not set.
unfoldable pub from_fields : ℕ → ℕ → ℕ → ℕ → ℕ → ℕ → ℕ → DeviceQualifier
from_fields reserved usb device_class sub_class protocol max_packet_size count = record {
  descriptor =
      10
      ∷ 6
      ∷ usb % 256
      ∷ usb / 256
      ∷ device_class
      ∷ sub_class
      ∷ protocol
      ∷ max_packet_size
      ∷ count
      ∷ reserved
      ∷ [];
  configurations = replicate count none;
}

-- The array of a device or of its qualifier with `count` entries. A value of 0 is an index of -1.
unfoldable pub place :
    ℕ → List (Option Configuration) → Configuration → Result (List (Option Configuration))
place count slots c =
    if ltb count (byte c.descriptor 5)
    then ok slots
    else if byte c.descriptor 5 == 0
    then fault
    else put_index slots (byte c.descriptor 5 - 1) (some c)

unfoldable pub find : ℕ → List (Option Configuration) → ℕ → Result (Option Configuration)
find count slots index =
    if ltb count index || ltb index 1 then ok none else at_index slots (index - 1)

unfoldable pub add_configuration : DeviceQualifier → Configuration → Result DeviceQualifier
unfolding place
add_configuration q c = do
  slots ← place (num_configurations q) q.configurations c
  ok (record q { configurations = slots })

unfoldable pub get_configuration : DeviceQualifier → ℕ → Result (Option Configuration)
unfolding find
get_configuration q index = find (num_configurations q) q.configurations index

abbrev pub is_packet_size : ℕ → Bool
is_packet_size n = n == 8 || (n == 16 || (n == 32 || n == 64))

abbrev pub error_at : ErrorKind → ℕ → ObjType → ℕ → DefinitionError
error_at kind detail object id = record {
  error = kind;
  error_detail = detail;
  object_type = object;
  config_id = id;
  interface_num = 0;
  interface_alternate = 0;
  endpoint_num = 0;
}

-- The loop over the configurations of a device or of its qualifier, from `index` on.
unfoldable pub configurations_defined :
    ObjType → Bool → ℕ → List (Option Configuration) → DefinitionError
configurations_defined object other_speed index [] = no_error
configurations_defined object other_speed index (none ∷ cs) =
    error_at err_null_object 0 object (index + 1)
configurations_defined object other_speed index (some c ∷ cs) =
    let rest = configurations_defined object other_speed (suc index) cs in
    if not (byte c.descriptor 5 == index + 1)
    then error_at err_misplaced_object (byte c.descriptor 5) object (index + 1)
    else unless_error (Access.is_defined c other_speed) rest (λ rc. rc)

unfoldable pub is_defined : DeviceQualifier → DefinitionError
unfolding configurations_defined
is_defined q =
    if not (byte q.descriptor 0 == 10)
    then error_at err_invalid_descriptor 1 obj_qualifier 0
    else if not (byte q.descriptor 1 == 6)
    then error_at err_invalid_descriptor 2 obj_qualifier 0
    else if not (is_packet_size (byte q.descriptor 7))
    then error_at err_invalid_descriptor 8 obj_qualifier 0
    else if num_configurations q == 0
    then error_at err_invalid_descriptor 9 obj_qualifier 0
    else configurations_defined obj_os_config true 0 q.configurations
