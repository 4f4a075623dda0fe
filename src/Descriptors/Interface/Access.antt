-- ===== src/Descriptors/Interface/Access.antt =====
-- lib/Interface.cpp: the constructors from fields, the accessors and `is_defined`.
use usbproxy.Base.{
  ℕ, suc, ◌-◌, not, Option, none, some, List, [], ◌∷◌, leb, ◌==◌, if◌then◌else◌, length, get_elem?,
  replicate, Bytes,
}
use usbproxy.Result.{Result, ok, fault, ◌>>=◌, at_index, put_index, read_bytes}
use usbproxy.Descriptors.Errors.{
  DefinitionError, no_error, unless_error, err_invalid_descriptor, err_null_object, obj_endpoint,
  obj_interface,
}
use usbproxy.Descriptors.Endpoint
use usbproxy.Descriptors.Endpoint.{Endpoint, byte, endpoint_address}
use usbproxy.Descriptors.Interface.{Interface, alternate_setting, num_endpoints}

-- The constructor from a descriptor.
unfoldable pub from_descriptor : Bytes → Interface
from_descriptor d = record {
  descriptor = d;
  endpoints = replicate (byte d 4) none;
  hid_descriptor = none;
  generic_descriptors = [];
}

-- The constructor from the fields.
unfoldable pub from_fields : ℕ → ℕ → ℕ → ℕ → ℕ → ℕ → ℕ → Interface
unfolding from_descriptor
from_fields number alternate endpoints class sub_class protocol string =
    from_descriptor
      (9 ∷ 4 ∷ number ∷ alternate ∷ endpoints ∷ class ∷ sub_class ∷ protocol ∷ string ∷ [])

-- The loop of `add_endpoint`: the first free slot, or the slot of the same address.
unfoldable pub place_endpoint : List (Option Endpoint) → Endpoint → List (Option Endpoint)
place_endpoint [] e = []
place_endpoint (none ∷ eps) e = some e ∷ eps
place_endpoint (some x ∷ eps) e =
    if endpoint_address x == endpoint_address e then some e ∷ eps else some x ∷ place_endpoint eps e

-- The message that it prints after the loop is not modelled.
unfoldable pub add_endpoint : Interface → Endpoint → Interface
unfolding place_endpoint
add_endpoint i e = record i { endpoints = place_endpoint i.endpoints e }

-- `none` is the null pointer.
unfoldable pub get_endpoint_by_idx : Interface → ℕ → Result (Option Endpoint)
get_endpoint_by_idx i index =
    if leb (num_endpoints i) index then ok none else at_index i.endpoints index

-- It does not test the slots for null.
unfoldable pub find_endpoint : List (Option Endpoint) → ℕ → Result (Option Endpoint)
find_endpoint [] address = ok none
find_endpoint (none ∷ eps) address = fault
find_endpoint (some e ∷ eps) address =
    if endpoint_address e == address then ok (some e) else find_endpoint eps address

unfoldable pub get_endpoint_by_address : Interface → ℕ → Result (Option Endpoint)
unfolding find_endpoint
get_endpoint_by_address i address = find_endpoint i.endpoints address

unfoldable pub get_generic_descriptor : Interface → ℕ → Option Bytes
get_generic_descriptor i index = get_elem? i.generic_descriptors index

-- The count is not raised: with no entry the write goes before the array, else to the last entry.
unfoldable pub add_generic_descriptor : Interface → Bytes → Result Interface
add_generic_descriptor i gd = do
  d ← read_bytes (byte gd 0) gd
  let ds = i.generic_descriptors
  slots ← if length ds == 0 then fault else put_index ds (length ds - 1) d
  ok (record i { generic_descriptors = slots })

interface_error : ℕ → ℕ → ℕ → Interface → DefinitionError
interface_error detail config_id interface_num i = record {
  error = err_invalid_descriptor;
  error_detail = detail;
  object_type = obj_interface;
  config_id = config_id;
  interface_num = interface_num;
  interface_alternate = alternate_setting i;
  endpoint_num = 0;
}

missing_endpoint : ℕ → ℕ → ℕ → ℕ → DefinitionError
missing_endpoint config_id interface_num alternate index = record {
  error = err_null_object;
  error_detail = 0;
  object_type = obj_endpoint;
  config_id = config_id;
  interface_num = interface_num;
  interface_alternate = alternate;
  endpoint_num = index;
}

unfoldable pub endpoints_defined : ℕ → ℕ → ℕ → ℕ → List (Option Endpoint) → DefinitionError
unfolding missing_endpoint
endpoints_defined config_id interface_num alternate index [] = no_error
endpoints_defined config_id interface_num alternate index (none ∷ eps) =
    missing_endpoint config_id interface_num alternate index
endpoints_defined config_id interface_num alternate index (some e ∷ eps) =
    let rest = endpoints_defined config_id interface_num alternate (suc index) eps in
    unless_error (Endpoint.is_defined e config_id interface_num alternate) rest (λ rc. rc)

unfoldable pub is_defined : Interface → ℕ → ℕ → DefinitionError
unfolding interface_error endpoints_defined
is_defined i config_id interface_num =
    if not (byte i.descriptor 0 == 9)
    then interface_error 1 config_id interface_num i
    else if not (byte i.descriptor 1 == 4)
    then interface_error 2 config_id interface_num i
    else endpoints_defined config_id interface_num (alternate_setting i) 0 i.endpoints
