-- ===== src/Device/Storing.antt =====
-- What the strings of a device are after one is added.
use usbproxy.Base.{
  ℕ, ◌+◌, ◌-◌, ◌≤◌, ◌<◌, max, ◌≡◌, refl, sym, ap, subst, ◌∙◌, inl, inr, true, Option, none, some,
  List, [], ◌∷◌, ◌++◌, arith, ltb, ◌==◌, ltb→lt, lt→ltb, ==_refl, Bool-cases, length, get_elem?,
  take, replicate, length-append, get_elem?-append_left, get_elem?-append_right,
  get_elem?-replicate, take_all, length-take, length-replicate,
}
use usbproxy.Result.{
  length-put_index, deref-ok, ok-injective, ok, at_index, put_index, bind-ok, Written,
  put_index-Written,
}
use usbproxy.Strings.{UsbString}
use usbproxy.Device.{Device, store_string, extended, put_string, first_in}

-- The array has as many entries as the device says.
abbrev pub IsSized : Device → Type 0
IsSized d = length d.strings ≡ d.max_string_idx + 1

pub first_in-store_string :
    (s : UsbString) (ts : List UsbString) → first_in s.language_id (store_string s ts) ≡ some s
unfolding first_in store_string
first_in-store_string s [] = rw (==_refl s.language_id) refl
first_in-store_string s (t ∷ ts) = elim (Bool-cases (t.language_id == s.language_id)) [
  | inl same ↦ rw (same, ==_refl s.language_id) refl
  | inr other ↦ rw (other, other) (first_in-store_string s ts)
]

-- The entry that `put_string` writes.
abbrev pub stored : UsbString → Option (List UsbString) → List UsbString
stored s slot = elim slot [ none ↦ s ∷ [] | some list ↦ store_string s list ]

pub first_in-stored :
    (s : UsbString) (slot : Option (List UsbString))
    → first_in s.language_id (stored s slot) ≡ some s
unfolding first_in
first_in-stored s none = rw (==_refl s.language_id) refl
first_in-stored s (some list) = first_in-store_string s list

-- What `put_string` has done where it succeeds.
pub record Put (d : Device) (s : UsbString) (d' : Device) : Type 0 where
  pub slot : Option (List UsbString)
  pub there : get_elem? (extended d s.index) s.index ≡ some slot
  pub written : Written (extended d s.index) s.index (some (stored s slot)) d'.strings
  pub sized : length d'.strings ≡ length (extended d s.index)
  pub same_proxy : d'.proxy ≡ d.proxy
  pub grown : d'.max_string_idx ≡ max d.max_string_idx s.index

pub put_string-Put : (d d' : Device) (s : UsbString) → put_string d s ≡ ok d' → Put d s d'
unfolding put_string
put_string-Put d d' s h =
    let (slot, e, h1) = bind-ok (at_index (extended d s.index) s.index) _ d' h in
    let (strings, w, h2) =
      bind-ok (put_index (extended d s.index) s.index (some (stored s slot))) _ d' h1 in
    let kept = ok-injective _ d' h2 in
    let same : strings ≡ d'.strings = ap (λ (v : Device). v.strings) kept in
    record {
      slot = slot;
      there = deref-ok (get_elem? (extended d s.index) s.index) slot e;
      written =
          subst (λ v. Written (extended d s.index) s.index (some (stored s slot)) v) same
            (put_index-Written (extended d s.index) s.index (some (stored s slot)) strings w);
      sized =
          ap length (sym same)
          ∙ length-put_index (extended d s.index) s.index (some (stored s slot)) strings w;
      same_proxy = ap (λ (v : Device). v.proxy) (sym kept);
      grown = ap (λ (v : Device). v.max_string_idx) (sym kept);
    }

length-extended :
    (d : Device) (index : ℕ)
    → IsSized d
    → length (extended d index) ≡ max d.max_string_idx index + 1
unfolding extended
length-extended d index sized = elim (Bool-cases (ltb d.max_string_idx index)) [
  | inl past ↦ rw past (
      omega (
        arith,
        ltb→lt d.max_string_idx index past,
        length-append (take (d.max_string_idx + 1) d.strings)
            (replicate {A = Option (List UsbString)} (index - d.max_string_idx) none),
        length-take (d.max_string_idx + 1) d.strings,
        length-replicate {A = Option (List UsbString)} (index - d.max_string_idx) none,
      ))
  | inr within ↦ rw within (ground (arith, within, sized))
]

pub put_string-IsSized :
    (d d' : Device) (s : UsbString) → put_string d s ≡ ok d' → IsSized d → IsSized d'
put_string-IsSized d d' s h sized =
    let put = put_string-Put d d' s h in
    put.sized ∙ length-extended d s.index sized ∙ ap (λ n. n + 1) (sym put.grown)

-- Below the old end the entries are the old ones, and behind it they are null pointers.
pub get_elem?-extended :
    (d : Device) (index j : ℕ)
    → IsSized d
    → j ≤ d.max_string_idx
    → get_elem? (extended d index) j ≡ get_elem? d.strings j
unfolding extended
get_elem?-extended d index j sized h = elim (Bool-cases (ltb d.max_string_idx index)) [
  | inl past ↦
      rw (past, take_all (d.max_string_idx + 1) d.strings (omega arith))
        (get_elem?-append_left d.strings (replicate (index - d.max_string_idx) none) j
          (omega arith))
  | inr within ↦ rw within refl
]

pub get_elem?-extended_new :
    (d : Device) (index j : ℕ)
    → IsSized d
    → d.max_string_idx < j
    → j ≤ index
    → get_elem? (extended d index) j ≡ some none
unfolding extended
get_elem?-extended_new d index j sized h l =
    let past : ltb d.max_string_idx index ≡ true = lt→ltb d.max_string_idx index (omega arith) in
    let at_end : j ≡ length d.strings + (j - length d.strings) = omega arith in
    rw (past, take_all (d.max_string_idx + 1) d.strings (omega arith))
      (ap (λ k. get_elem? (d.strings ++ replicate (index - d.max_string_idx) none) k) at_end
        ∙ get_elem?-append_right d.strings (replicate (index - d.max_string_idx) none)
            (j - length d.strings)
        ∙ get_elem?-replicate (index - d.max_string_idx) (j - length d.strings) none (omega arith))
