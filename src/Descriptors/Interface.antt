-- ===== src/Descriptors/Interface.antt =====
-- lib/Interface.cpp: an interface descriptor with what belongs to it.
pub mod Access
pub mod Loops
pub mod RoundTrip
pub mod Parse
pub mod Whole
pub mod ZeroLength
use usbproxy.Base.{
  fun_ext, ℕ, zero, suc, ◌+◌, ◌-◌, ◌*◌, ◌/◌, ◌%◌, ◌^◌, ◌≤◌, ◌<◌, min, max, ◌≡◌, refl, sym, ap, ap₂,
  subst, ◌∙◌, ◌≢◌, ◌↔◌, ◌⊎◌, inl, inr, Bool, true, false, ◌&&◌, ◌||◌, not, Option, none, some, List,
  [], ◌∷◌, ◌++◌, map, append-nil, append_assoc, arith, ltb, leb, ◌==◌, if◌then◌else◌, ltb→lt,
  lt→ltb, leb→le, le→leb, lt→leb, ==_iff, ==_refl, ==_ne, if-cases, below, below-holds, Bool-cases,
  Option-cases, length, get_elem?, get_or, set, take, drop, replicate, length-append, length-set,
  get_elem?-set_self, get_elem?-set_ne, get_elem?-none, get_elem?-some, get_elem?-append_left,
  get_elem?-append_right, get_elem?-inside, get_elem?-replicate, get_elem?-take, take-append_length,
  drop-append_length, take-append_left, take_all, length-take, length-drop, length-replicate, All,
  All-append, All-get_elem?, All-set, All-replicate, get_elem?-at, set-at, Bytes, u8, u16, has,
}
use usbproxy.Result.{Result, ok, fault, spins, ◌>>=◌, put_index, read_bytes, overlay}
use usbproxy.Descriptors.Endpoint
use usbproxy.Descriptors.Endpoint.{
  Endpoint, Hid, byte, hid_from_buffer, hid_length, hid_full_descriptor,
}

-- `endpoints` is an array of `bNumEndpoints` pointers. `generic_descriptor_count` is the length of
-- `generic_descriptors`. The pointer to the configuration is left out.
pub record Interface : Type 0 where
  pub descriptor : Bytes
  pub endpoints : List (Option Endpoint)
  pub hid_descriptor : Option Hid
  pub generic_descriptors : List Bytes

abbrev pub interface_number : Interface → ℕ
interface_number i = byte i.descriptor 2

abbrev pub alternate_setting : Interface → ℕ
alternate_setting i = byte i.descriptor 3

abbrev pub num_endpoints : Interface → ℕ
num_endpoints i = byte i.descriptor 4

-- The count is a `__u8`: with 255 entries it wraps to 0, and the source writes before the array.
unfoldable pub add_generic : List Bytes → Bytes → Result (List Bytes)
add_generic ds d = if ltb (length ds) 255 then ok (ds ++ (d ∷ [])) else fault

-- The first loop of the constructor, up to an interface descriptor. It reads a type byte before it
-- compares the pointer with the end of the buffer.
unfoldable pub lead : ℕ → List Bytes → Bytes → Result (List Bytes × Bytes)
lead zero ds p = spins
lead (suc fuel) ds [] = fault
lead (suc fuel) ds (n ∷ []) = fault
lead (suc fuel) ds (n ∷ t ∷ rest) = elim (t == 4) [
  | true ↦ ok (ds, n ∷ t ∷ rest)
  | false ↦ (do
    d ← read_bytes n (n ∷ t ∷ rest)
    ds' ← add_generic ds d
    lead fuel ds' (drop n (n ∷ t ∷ rest)))
]

-- One round of the second loop: `ep` counts the slots that are filled.
unfoldable pub add_part : Bytes → Interface → ℕ → ℕ → Bytes → Result (Interface × ℕ)
unfolding add_generic Endpoint.from_buffer hid_from_buffer
add_part junk i ep t p =
    if t == 5
    then (do
      e ← Endpoint.from_buffer junk p
      slots ← put_index i.endpoints ep (some e)
      ok (record i { endpoints = slots }, ep + 1))
    else if t == 0x21
    then (do h ← hid_from_buffer p; ok (record i { hid_descriptor = some h }, ep))
    else (do
      d ← read_bytes (byte p 0) p
      ds ← add_generic i.generic_descriptors d
      ok (record i { generic_descriptors = ds }, ep))

unfoldable pub body : ℕ → Bytes → Interface → ℕ → Bytes → Result (Interface × Bytes)
body zero junk i ep p = spins
body (suc fuel) junk i ep [] = ok (i, [])
body (suc fuel) junk i ep (n ∷ []) = fault
body (suc fuel) junk i ep (n ∷ t ∷ rest) = elim (t == 4) [
  | true ↦ ok (i, n ∷ t ∷ rest)
  | false ↦ (do
    s ← add_part junk i ep t (n ∷ t ∷ rest)
    body fuel junk s.0 s.1 (drop n (n ∷ t ∷ rest)))
]

-- The constructor from the bytes between `*p` and `e`; it also returns the bytes that are left. A
-- round that moves on takes a byte at least, so a loop that outruns the fuel never ends. `junk` is
-- what a new object holds before it is written, nine bytes here.
unfoldable pub from_buffer : Bytes → Bytes → Result (Interface × Bytes)
unfolding lead body
from_buffer junk p = do
  s ← lead (suc (length p)) [] p
  d ← read_bytes (byte s.1 0) s.1
  raw ← overlay junk d
  let i : Interface = record {
    descriptor = raw;
    endpoints = replicate (byte raw 4) none;
    hid_descriptor = none;
    generic_descriptors = s.0;
  }
  let rest = drop (byte s.1 0) s.1
  body (suc (length rest)) junk i 0 rest

unfoldable pub full_length_endpoints : List (Option Endpoint) → ℕ
full_length_endpoints [] = 0
full_length_endpoints (none ∷ eps) = full_length_endpoints eps
full_length_endpoints (some e ∷ eps) =
    Endpoint.get_full_descriptor_length e + full_length_endpoints eps

unfoldable pub full_length_generics : List Bytes → ℕ
full_length_generics [] = 0
full_length_generics (d ∷ ds) = byte d 0 + full_length_generics ds

unfoldable pub full_length_hid : Option Hid → ℕ
full_length_hid none = 0
full_length_hid (some h) = hid_length h

unfoldable pub get_full_descriptor_length : Interface → ℕ
unfolding full_length_endpoints full_length_generics full_length_hid
get_full_descriptor_length i =
    byte i.descriptor 0
    + full_length_hid i.hid_descriptor
    + full_length_generics i.generic_descriptors
    + full_length_endpoints i.endpoints

unfoldable pub full_endpoints : List (Option Endpoint) → Result Bytes
full_endpoints [] = ok []
full_endpoints (none ∷ eps) = full_endpoints eps
full_endpoints (some e ∷ eps) = do
  here ← Endpoint.get_full_descriptor e
  after ← full_endpoints eps
  ok (here ++ after)

unfoldable pub full_generics : List Bytes → Result Bytes
full_generics [] = ok []
full_generics (d ∷ ds) = do
  here ← read_bytes (byte d 0) d
  after ← full_generics ds
  ok (here ++ after)

unfoldable pub full_hid : Option Hid → Result Bytes
full_hid none = ok []
full_hid (some h) = hid_full_descriptor h

-- What is written at `*p`.
unfoldable pub get_full_descriptor : Interface → Result Bytes
unfolding full_endpoints full_generics full_hid
get_full_descriptor i = do
  d ← read_bytes (byte i.descriptor 0) i.descriptor
  h ← full_hid i.hid_descriptor
  gs ← full_generics i.generic_descriptors
  es ← full_endpoints i.endpoints
  ok (d ++ (h ++ (gs ++ es)))
