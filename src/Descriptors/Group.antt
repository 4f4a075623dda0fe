-- ===== src/Descriptors/Group.antt =====
-- lib/InterfaceGroup.cpp: the alternate settings of one interface.
pub mod Slots
use usbproxy.Base.{
  fun_ext, ℕ, zero, suc, ◌+◌, ◌-◌, ◌*◌, ◌/◌, ◌%◌, ◌^◌, ◌≤◌, ◌<◌, min, max, ◌≡◌, refl, sym, ap, ap₂,
  subst, ◌∙◌, ◌≢◌, ◌↔◌, ◌⊎◌, inl, inr, Bool, true, false, ◌&&◌, ◌||◌, not, Option, none, some, List,
  [], ◌∷◌, ◌++◌, map, append-nil, append_assoc, arith, ltb, leb, ◌==◌, if◌then◌else◌, ltb→lt,
  lt→ltb, leb→le, le→leb, lt→leb, ==_iff, ==_refl, ==_ne, if-cases, below, below-holds, Bool-cases,
  Option-cases, length, get_elem?, get_or, set, take, drop, replicate, length-append, length-set,
  get_elem?-set_self, get_elem?-set_ne, get_elem?-none, get_elem?-some, get_elem?-append_left,
  get_elem?-append_right, get_elem?-inside, get_elem?-replicate, get_elem?-take, take-append_length,
  drop-append_length, take-append_left, take_all, length-take, length-drop, length-replicate, All,
  All-append, All-get_elem?, All-set, All-replicate, get_elem?-at, set-at, Bytes, u8, u16, has,
}
use usbproxy.Result.{Result, ok, ◌>>=◌, at_index, put_index}
use usbproxy.Descriptors.Errors.{
  DefinitionError, no_error, unless_error, err_null_object, err_misplaced_object,
  err_misplaced_if_num, obj_interface, ErrorKind,
}
use usbproxy.Descriptors.Interface
use usbproxy.Descriptors.Interface.Access
use usbproxy.Descriptors.Interface.{Interface, interface_number, alternate_setting}

-- `active_alternate_index` is `none` for -1. `interfaces` may be longer than `alternate_count` says.
pub record Group : Type 0 where
  pub number : ℕ
  pub alternate_count : ℕ
  pub active_alternate_index : Option ℕ
  pub interfaces : List (Option Interface)

unfoldable pub init : ℕ → Group
init number = record {
  number = number;
  alternate_count = 0;
  active_alternate_index = none;
  interfaces = [];
}

-- `calloc` of `n` pointers and a copy of the old ones; the rest of an old array is lost.
abbrev pub grow : ℕ → ℕ → List (Option Interface) → List (Option Interface)
grow count n old = take count old ++ replicate (n - count) none

-- `alternateCount` is a `__u8`.
unfoldable pub add_interface : Group → Interface → Result Group
add_interface g i =
    if leb g.alternate_count (alternate_setting i)
    then (do
      let size = alternate_setting i + 1
      slots ← put_index (grow g.alternate_count size g.interfaces) (alternate_setting i) (some i)
      ok (record g { interfaces = slots; alternate_count = u8 size }))
    else (do
      slots ← put_index g.interfaces (alternate_setting i) (some i)
      ok (record g { interfaces = slots }))

unfoldable pub get_interface : Group → ℕ → Result (Option Interface)
get_interface g alternate =
    if leb g.alternate_count alternate then ok none else at_index g.interfaces alternate

-- The index is passed on as a `__u8`.
unfoldable pub get_active_interface : Group → Result (Option Interface)
unfolding get_interface
get_active_interface g = elim g.active_alternate_index [
  | none ↦ ok none
  | some index ↦ get_interface g (u8 index)
]

unfoldable pub full_length_slots : List (Option Interface) → ℕ
full_length_slots [] = 0
full_length_slots (none ∷ is) = full_length_slots is
full_length_slots (some i ∷ is) = Interface.get_full_descriptor_length i + full_length_slots is

unfoldable pub get_full_descriptor_length : Group → ℕ
unfolding full_length_slots
get_full_descriptor_length g = full_length_slots (take g.alternate_count g.interfaces)

unfoldable pub full_slots : List (Option Interface) → Result Bytes
full_slots [] = ok []
full_slots (none ∷ is) = full_slots is
full_slots (some i ∷ is) = do
  here ← Interface.get_full_descriptor i
  after ← full_slots is
  ok (here ++ after)

unfoldable pub get_full_descriptor : Group → Result Bytes
unfolding full_slots
get_full_descriptor g = full_slots (take g.alternate_count g.interfaces)

group_error : ErrorKind → ℕ → ℕ → ℕ → ℕ → DefinitionError
group_error kind detail config_id number index = record {
  error = kind;
  error_detail = detail;
  object_type = obj_interface;
  config_id = config_id;
  interface_num = number;
  interface_alternate = index;
  endpoint_num = 0;
}

unfoldable pub slots_defined : ℕ → ℕ → ℕ → List (Option Interface) → DefinitionError
unfolding group_error
slots_defined config_id number index [] = no_error
slots_defined config_id number index (none ∷ is) =
    group_error err_null_object 0 config_id number index
slots_defined config_id number index (some i ∷ is) =
    let rest = slots_defined config_id number (suc index) is in
    if not (interface_number i == number)
    then group_error err_misplaced_if_num (alternate_setting i) config_id number index
    else if not (alternate_setting i == index)
    then group_error err_misplaced_object (alternate_setting i) config_id number index
    else unless_error (Access.is_defined i config_id number) rest (λ rc. rc)

unfoldable pub is_defined : Group → ℕ → DefinitionError
unfolding slots_defined group_error
is_defined g config_id =
    if g.alternate_count == 0
    then group_error err_null_object 0 config_id g.number 0
    else slots_defined config_id g.number 0 (take g.alternate_count g.interfaces)
