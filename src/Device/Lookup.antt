-- ===== src/Device/Lookup.antt =====
-- Adding a string to a device, and reading strings back.
use usbproxy.Base.{
  ℕ, ◌+◌, ◌≤◌, ◌≡◌, refl, sym, ap, subst, ◌∙◌, ◌≢◌, inl, inr, false, ◌&&◌, Option, none, some, List,
  arith, ltb, ◌==◌, if◌then◌else◌, ==_ne, Bool-cases, length, get_elem?, take, get_elem?-some,
  Bytes,
}
use usbproxy.Result.{
  ok, ◌>>=◌, deref, at_index, put_index, bind-ok, put_index-Written, ok-injective, length-put_index,
}
use usbproxy.Strings
use usbproxy.Strings.{UsbString}
use usbproxy.Device.{
  first_in, Device, language_string, get_language_count, has_language, set_language_string,
  add_language, put_string, add_string, get_string,
}
use usbproxy.Device.Storing.{
  IsSized, first_in-stored, Put, put_string-Put, put_string-IsSized, get_elem?-extended,
  get_elem?-extended_new,
}

-- A change of string 0 alone.
pub record SameButFirst (d d' : Device) : Type 0 where
  pub elsewhere : (j : ℕ) → 0 ≢ j → get_elem? d'.strings j ≡ get_elem? d.strings j
  pub sized : length d'.strings ≡ length d.strings
  pub same_max : d'.max_string_idx ≡ d.max_string_idx
  pub same_proxy : d'.proxy ≡ d.proxy

pub SameButFirst-refl : (d : Device) → SameButFirst d d
SameButFirst-refl d = record {
  elsewhere = λ j n. refl;
  sized = refl;
  same_max = refl;
  same_proxy = refl;
}

set_language_string-SameButFirst :
    (d d' : Device) (s : UsbString) → set_language_string d s ≡ ok d' → SameButFirst d d'
set_language_string-SameButFirst d d' s h =
    let (slot, _, h1) = bind-ok (at_index d.strings 0) _ d' h in
    let (list, _, h2) = bind-ok (deref slot) _ d' h1 in
    let (list', _, h3) = bind-ok (put_index list 0 s) _ d' h2 in
    let (strings, w, h4) = bind-ok (put_index d.strings 0 (some list')) _ d' h3 in
    let kept = ok-injective _ d' h4 in
    let same : strings ≡ d'.strings = ap (λ (v : Device). v.strings) kept in
    let written = put_index-Written d.strings 0 (some list') strings w in
    record {
      elsewhere = λ j n. ap (λ v. get_elem? v j) (sym same) ∙ written.elsewhere j n;
      sized = ap length (sym same) ∙ length-put_index d.strings 0 (some list') strings w;
      same_max = ap (λ (v : Device). v.max_string_idx) (sym kept);
      same_proxy = ap (λ (v : Device). v.proxy) (sym kept);
    }

pub add_language-SameButFirst :
    (block : Bytes) (d d' : Device) (language_id : ℕ)
    → add_language block d language_id ≡ ok d'
    → SameButFirst d d'
unfolding add_language
add_language-SameButFirst block d d' language_id h =
    let (count, _, h1) = bind-ok (get_language_count d) _ d' h in
    let (s, _, h2) = bind-ok (language_string d) _ d' h1 in
    let (found, _, h3) = bind-ok (has_language count 0 s language_id) _ d' h2 in
    elim (Bool-cases found) [
      | inl there ↦
          let same : ok d ≡ ok d' = rw there at h3 in
          subst (λ v. SameButFirst d v) (ok-injective d d' same) (SameButFirst-refl d)
      | inr missing ↦
          let h4 : (Strings.append_char s (take 2 block) language_id >>= λ s'.
          set_language_string d s')
              ≡ ok d' =
            rw missing at h3 in
          let (s', _, h5) = bind-ok (Strings.append_char s (take 2 block) language_id) _ d' h4 in
          set_language_string-SameButFirst d d' s' h5
    ]

-- The two steps of `add_string`.
pub add_string-steps :
    (block : Bytes) (d d' : Device) (s : UsbString)
    → add_string block d s ≡ ok d'
    → (mid : Device) × SameButFirst d mid × Put mid s d' × (put_string mid s ≡ ok d')
unfolding add_string
add_string-steps block d d' s h =
    let (mid, e, h1) =
      bind-ok
        (if s.index == 0 && s.language_id == 0 then ok d else add_language block d s.language_id) _
        d' h in
    let first : SameButFirst d mid = elim (Bool-cases (s.index == 0 && s.language_id == 0)) [
      | inl zero_both ↦
          let same : ok d ≡ ok mid = rw zero_both at e in
          subst (λ v. SameButFirst d v) (ok-injective d mid same) (SameButFirst-refl d)
      | inr other ↦
          let added : add_language block d s.language_id ≡ ok mid = rw other at e in
          add_language-SameButFirst block d mid s.language_id added
    ] in
    (mid, first, put_string-Put mid d' s h1, h1)

-- What is read in an entry.
abbrev pub found_in : ℕ → Option (List UsbString) → Option UsbString
found_in language_id none = none
found_in language_id (some list) = first_in language_id list

pub get_string-entry :
    (d : Device) (j language_id : ℕ) (slot : Option (List UsbString))
    → get_elem? d.strings j ≡ some slot
    → ltb d.max_string_idx j ≡ false
    → language_id ≢ 0
    → get_string d j language_id ≡ ok (found_in language_id slot)
unfolding get_string
get_string-entry d j language_id none e h n = rw (h, e) refl
get_string-entry d j language_id (some list) e h n = rw (h, e, ==_ne language_id 0 n) refl

-- A string that is added to a device, with a language, is the one that is read at its index in its
-- language.
pub get_string-add_string :
    (block : Bytes) (d d' : Device) (s : UsbString)
    → s.language_id ≢ 0
    → add_string block d s ≡ ok d'
    → get_string d' s.index s.language_id ≡ ok (some s)
unfolding get_string
get_string-add_string block d d' s n h =
    let (mid, first, put, _) = add_string-steps block d d' s h in
    let within : ltb d'.max_string_idx s.index ≡ false = rw put.grown (ground arith) in
    rw (within, put.written.here, ==_ne s.language_id 0 n, first_in-stored s put.slot) refl

-- The array of strings keeps the size that the device says, and a string at another index, or one
-- that is not there, is read in a language as before.
pub get_string-add_string_ne :
    (block : Bytes) (d d' : Device) (s : UsbString) (j language_id : ℕ)
    → IsSized d
    → j ≢ 0
    → language_id ≢ 0
    → s.index ≢ j
    → add_string block d s ≡ ok d'
    → IsSized d' × (get_string d' j language_id ≡ get_string d j language_id)
unfolding get_string
get_string-add_string_ne block d d' s j language_id sized m n o h =
    let (mid, first, put, stepped) = add_string-steps block d d' s h in
    let sized_mid : IsSized mid = first.sized ∙ sized ∙ ap (λ k. k + 1) (sym first.same_max) in
    let entry = put.written.elsewhere j o in
    let z : 0 ≢ j = λ e. m (sym e) in
    (
      put_string-IsSized mid d' s stepped sized_mid,
      elim (Bool-cases (ltb d.max_string_idx j)) [
        | inl past ↦ elim (Bool-cases (ltb d'.max_string_idx j)) [
          | inl still ↦ rw (past, still) refl
          | inr inside ↦
              let bound : j ≤ s.index = ground (arith, inside, past, put.grown, first.same_max) in
              let empty : get_elem? d'.strings j ≡ some none =
                entry
                ∙ get_elem?-extended_new mid s.index j sized_mid
                    (ground (arith, past, first.same_max)) bound in
              rw (past, inside, empty) refl
        ]
        | inr inside ↦
            let inside' : ltb d'.max_string_idx j ≡ false =
              ground (arith, inside, put.grown, first.same_max) in
            let kept : get_elem? d'.strings j ≡ get_elem? d.strings j =
              entry
              ∙ get_elem?-extended mid s.index j sized_mid (ground (arith, inside, first.same_max))
              ∙ first.elsewhere j z in
            let (slot, e) = get_elem?-some d.strings j (ground (arith, inside, sized)) in
            get_string-entry d' j language_id slot (kept ∙ e) inside' n
            ∙ sym (get_string-entry d j language_id slot e inside n)
      ],
    )
