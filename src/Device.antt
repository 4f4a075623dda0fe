-- ===== src/Device.antt =====
-- lib/Device.cpp: the model of a device, its strings and its configurations. The printing and the
-- destructor are left out.
pub mod Access
pub mod Active
pub mod Checked
pub mod Languages
pub mod Load
pub mod Lookup
pub mod Spoken
pub mod Storing
use usbproxy.Base.{
  fun_ext, ℕ, zero, suc, ◌+◌, ◌-◌, ◌*◌, ◌/◌, ◌%◌, ◌^◌, ◌≤◌, ◌<◌, min, max, ◌≡◌, refl, sym, ap, ap₂,
  subst, ◌∙◌, ◌≢◌, ◌↔◌, ◌⊎◌, inl, inr, Bool, true, false, ◌&&◌, ◌||◌, not, Option, none, some, List,
  [], ◌∷◌, ◌++◌, map, append-nil, append_assoc, arith, ltb, leb, ◌==◌, if◌then◌else◌, ltb→lt,
  lt→ltb, leb→le, le→leb, lt→leb, ==_iff, ==_refl, ==_ne, if-cases, below, below-holds, Bool-cases,
  Option-cases, length, get_elem?, get_or, set, take, drop, replicate, length-append, length-set,
  get_elem?-set_self, get_elem?-set_ne, get_elem?-none, get_elem?-some, get_elem?-append_left,
  get_elem?-append_right, get_elem?-inside, get_elem?-replicate, get_elem?-take, take-append_length,
  drop-append_length, take-append_left, take_all, length-take, length-drop, length-replicate, All,
  All-append, All-get_elem?, All-set, All-replicate, get_elem?-at, set-at, Bytes, u8, u16, has,
}
use usbproxy.Result.{Result, ok, ◌>>=◌, deref, at_index, put_index}
use usbproxy.Strings
use usbproxy.Strings.{UsbString}
use usbproxy.Descriptors.Endpoint.{byte}
use usbproxy.Descriptors.Configuration.{Configuration}
use usbproxy.Descriptors.Configuration as Config
use usbproxy.DeviceQualifier
use usbproxy.DeviceQualifier.{DeviceQualifier}

-- The device proxy: the replies to control requests, its address and its speed.
pub record Proxy : Type 0 where
  pub replies : Config.Device
  pub address : ℕ
  pub is_highspeed : Bool

-- What the memory holds that the constructors are given: the descriptor of the device, the one of
-- the qualifier, an endpoint descriptor, and a block of `malloc` or `realloc`.
pub record Memory : Type 0 where
  pub device_bytes : Bytes
  pub qualifier_bytes : Bytes
  pub endpoint_bytes : Bytes
  pub block : Bytes

pub data State : Type 0 where
  not_attached default_state address configured : State

-- `strings` is an array of `max_string_idx + 1` pointers, each to an array of strings that ends with
-- a null pointer. `device_configuration_index` is `none` for -1. The host's address, state and
-- configuration are set by the constructors alone, and are left out.
pub record Device : Type 0 where
  pub descriptor : Bytes
  pub device_address : ℕ
  pub device_state : State
  pub device_configuration_index : Option ℕ
  pub highspeed : Bool
  pub configurations : List (Option Configuration)
  pub strings : List (Option (List UsbString))
  pub max_string_idx : ℕ
  pub proxy : Option Proxy
  pub qualifier : Option DeviceQualifier

abbrev pub manufacturer : Device → ℕ
manufacturer d = byte d.descriptor 14

abbrev pub product : Device → ℕ
product d = byte d.descriptor 15

abbrev pub serial_number : Device → ℕ
serial_number d = byte d.descriptor 16

abbrev pub num_configurations : Device → ℕ
num_configurations d = byte d.descriptor 17

-- `strings[0][0]`, the list of languages; it is dereferenced.
unfoldable pub language_string : Device → Result UsbString
language_string d = do slot ← at_index d.strings 0; list ← deref slot; at_index list 0

-- `wData[i]` of a string descriptor.
unfoldable pub word_at : UsbString → ℕ → Result ℕ
word_at s i = do
  low ← at_index s.descriptor (2 + 2 * i)
  high ← at_index s.descriptor (3 + 2 * i)
  ok (low + 256 * high)

unfoldable pub get_language_count : Device → Result ℕ
unfolding language_string
get_language_count d = do s ← language_string d; Strings.get_char_count s

unfoldable pub get_language_by_index : Device → ℕ → Result ℕ
unfolding get_language_count word_at
get_language_by_index d index = do
  count ← get_language_count d
  if leb count index then ok 0 else (do s ← language_string d; word_at s index)

-- The loop of `add_language`, for the next `n` words: whether the language is there.
unfoldable pub has_language : ℕ → ℕ → UsbString → ℕ → Result Bool
unfolding word_at
has_language zero i s language_id = ok false
has_language (suc n) i s language_id =
    let rest = has_language n (suc i) s language_id in
    word_at s i >>= λ w. if language_id == w then ok true else rest

-- `strings[0][0]` after a change of the object that it points to.
abbrev pub set_language_string : Device → UsbString → Result Device
set_language_string d s = do
  slot ← at_index d.strings 0
  list ← deref slot
  list' ← put_index list 0 s
  strings ← put_index d.strings 0 (some list')
  ok (record d { strings = strings })

unfoldable pub add_language : Bytes → Device → ℕ → Result Device
unfolding get_language_count has_language
add_language block d language_id = do
  count ← get_language_count d
  s ← language_string d
  found ← has_language count 0 s language_id
  if found
      then ok d
      else (do s' ← Strings.append_char s (take 2 block) language_id; set_language_string d s')

-- The loop over `strings[index]`: it replaces the strings in the language, and adds the string
-- behind the last one in any case.
unfoldable pub store_string : UsbString → List UsbString → List UsbString
store_string s [] = s ∷ []
store_string s (t ∷ ts) = (if t.language_id == s.language_id then s else t) ∷ store_string s ts

-- The array with room for `index`.
unfoldable pub extended : Device → ℕ → List (Option (List UsbString))
extended d index =
    if ltb d.max_string_idx index
    then take (d.max_string_idx + 1) d.strings ++ replicate (index - d.max_string_idx) none
    else d.strings

unfoldable pub put_string : Device → UsbString → Result Device
unfolding store_string extended
put_string d s = do
  let strings = extended d s.index
  slot ← at_index strings s.index
  strings' ←
      put_index strings s.index
        (some (elim slot [ none ↦ s ∷ [] | some list ↦ store_string s list ]))
  ok (record d { strings = strings'; max_string_idx = max d.max_string_idx s.index })

unfoldable pub add_string : Bytes → Device → UsbString → Result Device
unfolding add_language put_string
add_string block d s = do
  d' ← if s.index == 0 && s.language_id == 0 then ok d else add_language block d s.language_id
  put_string d' s

-- By way of the proxy; without one, a message is printed.
unfoldable pub add_by : Option Proxy → Bytes → Device → ℕ → ℕ → Result Device
unfolding add_string
add_by none block d index language_id = ok d
add_by (some p) block d index language_id = do
  s ← Strings.from_device p.replies block index language_id
  add_string block d s

unfoldable pub add_string_of : Bytes → Device → ℕ → ℕ → Result Device
unfolding add_by
add_string_of block d index language_id = add_by d.proxy block d index language_id

-- The loop of `add_string(index)`, for the next `n` words of the list of languages.
unfoldable pub add_strings_from : Bytes → ℕ → ℕ → UsbString → ℕ → Device → Result Device
unfolding add_string_of word_at
add_strings_from block zero i list index d = ok d
add_strings_from block (suc n) i list index d = do
  w ← word_at list i
  d' ← add_string_of block d index w
  add_strings_from block n (suc i) list index d'

-- In all languages.
unfoldable pub add_strings : Bytes → Device → ℕ → Result Device
unfolding add_strings_from
add_strings block d index = do
  slot ← at_index d.strings 0
  elim slot [
    | none ↦ ok d
    | some [] ↦ ok d
    | some (list ∷ _) ↦ (do
      len ← at_index list.descriptor 0
      add_strings_from block (len / 2 - 1) 0 list index d)
  ]

-- The first string in the language.
unfoldable pub first_in : ℕ → List UsbString → Option UsbString
first_in language_id [] = none
first_in language_id (t ∷ ts) =
    if t.language_id == language_id then some t else first_in language_id ts

unfoldable pub get_string : Device → ℕ → ℕ → Result (Option UsbString)
unfolding first_in language_string word_at
get_string d index language_id = if ltb d.max_string_idx index then ok none else (do
  slot ← at_index d.strings index
  elim slot [
    | none ↦ ok none
    | some list ↦ (do
      wanted ←
          if language_id == 0 && not (index == 0)
          then (do s ← language_string d; word_at s 0)
          else ok language_id
      ok (first_in wanted list))
  ])

-- The strings that the descriptor names; 0 stands for the first language.
unfoldable pub get_named_string : ℕ → Device → ℕ → Result (Option UsbString)
unfolding get_string
get_named_string index d language_id = if index == 0 then ok none else (do
  wanted ← if language_id == 0 then (do s ← language_string d; word_at s 0) else ok language_id
  get_string d index wanted)

unfoldable pub get_manufacturer_string : Device → ℕ → Result (Option UsbString)
unfolding get_named_string
get_manufacturer_string d language_id = get_named_string (manufacturer d) d language_id

unfoldable pub get_product_string : Device → ℕ → Result (Option UsbString)
unfolding get_named_string
get_product_string d language_id = get_named_string (product d) d language_id

unfoldable pub get_serial_string : Device → ℕ → Result (Option UsbString)
unfolding get_named_string
get_serial_string d language_id = get_named_string (serial_number d) d language_id
