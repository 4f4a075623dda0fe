-- ===== src/Device/Spoken.antt =====
-- A string that is added in all languages is defined in all of them.
use usbproxy.Base.{
  ℕ, zero, suc, ◌+◌, ◌-◌, ◌*◌, ◌/◌, ◌≤◌, ◌<◌, ◌≡◌, refl, sym, ap, subst, ◌∙◌, ◌≢◌, inl, inr, true,
  false, ◌&&◌, Option, none, some, List, [], ◌∷◌, ◌++◌, arith, ltb, ◌==◌, if◌then◌else◌, ==_iff,
  ==_refl, ==_ne, Bool-cases, length, get_elem?, take, drop, get_elem?-some, get_elem?-inside,
  Bytes, u8,
}
use usbproxy.Descriptors.Errors.{no_error}
use usbproxy.Result.{ok, at_index, bind-ok, ok-injective}
use usbproxy.Descriptors.Configuration.{ask}
use usbproxy.Strings
use usbproxy.Strings.{UsbString, string_request}
use usbproxy.Strings.Append.{languages}
use usbproxy.Device.{
  word_at, add_strings_from, add_strings, add_by, Device, Proxy, language_string, store_string,
  add_language, put_string, add_string, add_string_of,
}
use usbproxy.Device.Access.{is_string_defined, languages_defined, speaks}
use usbproxy.Device.Storing.{
  IsSized, stored, put_string-Put, put_string-IsSized, get_elem?-extended,
}
use usbproxy.Device.Languages.{
  get_language_by_index-languages, get_language_count-languages, word_at-languages, AreLanguages,
  Speaks, add_language-known, language_string-entry,
}

from_device-fields :
    (p : Proxy) (junk : Bytes) (index language_id : ℕ) (s : UsbString)
    → Strings.from_device p.replies junk index language_id ≡ ok s
    → (s.index ≡ index) × (s.language_id ≡ language_id)
unfolding Strings.from_device
from_device-fields p junk index language_id s h =
    let (a, _, h1) =
      bind-ok (ask p.replies (string_request index language_id 8) (take 8 junk)) _ s h in
    let (len, _, h2) = bind-ok (at_index a.0 0) _ s h1 in
    let d = take len (a.0 ++ drop 8 junk) in
    let (b, _, h3) =
      bind-ok
        (if ltb 8 len then ask p.replies (string_request index language_id len) d else ok (d, 8)) _
        s h2 in
    let same = ok-injective _ s h3 in
    (ap (λ (t : UsbString). t.index) (sym same), ap (λ (t : UsbString). t.language_id) (sym same))

-- At an index there is a string in the language.
abbrev pub IsSpoken : Device → ℕ → ℕ → Type 0
IsSpoken d index language_id =
    (list : List UsbString) × (get_elem? d.strings index ≡ some (some list))
    × (speaks language_id list ≡ true)

speaks-store_string :
    (s : UsbString) (ts : List UsbString) → speaks s.language_id (store_string s ts) ≡ true
unfolding speaks store_string
speaks-store_string s [] = rw (==_refl s.language_id) refl
speaks-store_string s (t ∷ ts) = elim (Bool-cases (t.language_id == s.language_id)) [
  | inl same ↦ rw (same, ==_refl s.language_id) refl
  | inr other ↦ rw (other, other) (speaks-store_string s ts)
]

speaks-store_string_mono :
    (s : UsbString) (ts : List UsbString) (l : ℕ)
    → speaks l ts ≡ true
    → speaks l (store_string s ts) ≡ true
unfolding speaks store_string
speaks-store_string_mono s [] l h = cc
speaks-store_string_mono s (t ∷ ts) l h = elim (Bool-cases (t.language_id == s.language_id)) [
  | inl same ↦
      let equal : t.language_id ≡ s.language_id = (==_iff t.language_id s.language_id).0 same in
      elim (Bool-cases (t.language_id == l)) [
        | inl here ↦ rw same (rw (sym equal) (rw here refl))
        | inr there ↦
            let later : speaks l ts ≡ true = rw there at h in
            rw same (rw (sym equal) (rw there (speaks-store_string_mono s ts l later)))
      ]
  | inr other ↦ elim (Bool-cases (t.language_id == l)) [
    | inl here ↦ rw other (rw here refl)
    | inr there ↦
        let later : speaks l ts ≡ true = rw there at h in
        rw other (rw there (speaks-store_string_mono s ts l later))
  ]
]

speaks-stored :
    (s : UsbString) (slot : Option (List UsbString)) → speaks s.language_id (stored s slot) ≡ true
unfolding speaks
speaks-stored s none = rw (==_refl s.language_id) refl
speaks-stored s (some list) = speaks-store_string s list

-- What one call by way of the proxy does, for a language of the device and an index other than 0.
record Added (d d' : Device) (ws : List ℕ) (index l : ℕ) : Type 0 where
  sized : IsSized d'
  known : Speaks d' ws
  same_proxy : d'.proxy ≡ d.proxy
  now : IsSpoken d' index l
  before : (k : ℕ) → IsSpoken d index k → IsSpoken d' index k

Put-Added :
    (d d' : Device) (s : UsbString) (ws : List ℕ)
    → IsSized d
    → Speaks d ws
    → s.index ≢ 0
    → put_string d s ≡ ok d'
    → Added d d' ws s.index s.language_id
unfolding language_string
Put-Added d d' s ws sized known n h =
    let put = put_string-Put d d' s h in
    let (rest, first) = language_string-entry d (languages ws) known in
    let first' : get_elem? d'.strings 0 ≡ some (some (languages ws ∷ rest)) =
      put.written.elsewhere 0 n ∙ get_elem?-extended d s.index 0 sized (omega arith) ∙ first in
    record {
      sized = put_string-IsSized d d' s h sized;
      known = rw first' refl;
      same_proxy = put.same_proxy;
      now = (stored s put.slot, put.written.here, speaks-stored s put.slot);
      before = λ k spoken.
          let (list, e, t) = spoken in
          let inside : s.index ≤ d.max_string_idx =
            omega (arith, get_elem?-inside d.strings s.index (some list) e) in
          let same : put.slot ≡ some list =
            let there = put.there in
            let old = get_elem?-extended d s.index s.index sized inside in cc in
          (stored s put.slot, put.written.here, rw same (speaks-store_string_mono s list k t));
    }

add_string_of-Added :
    (block : Bytes) (d d' : Device) (p : Proxy) (ws : List ℕ) (index i l : ℕ)
    → AreLanguages ws
    → IsSized d
    → Speaks d ws
    → d.proxy ≡ some p
    → index ≢ 0
    → get_elem? ws i ≡ some l
    → add_string_of block d index l ≡ ok d'
    → Added d d' ws index l
unfolding add_string_of add_string
add_string_of-Added block d d' p ws index i l v sized known proxy n e h =
    let h0 : add_by (some p) block d index l ≡ ok d' =
      ap (λ o. add_by o block d index l) (sym proxy) ∙ h in
    let (s, made, h1) = bind-ok (Strings.from_device p.replies block index l) _ d' h0 in
    let (at, language) = from_device-fields p block index l s made in
    let n' : s.index ≢ 0 = λ z. n (sym at ∙ z) in
    let kept : add_language block d s.language_id ≡ ok d =
      add_language-known block d ws i s.language_id v known (e ∙ ap some (sym language)) in
    let both : (s.index == 0 && s.language_id == 0) ≡ false = rw (==_ne s.index 0 n') refl in
    let h2 : put_string d s ≡ ok d' = rw (both, kept) at h1 in
    subst (λ k. Added d d' ws k l) at
      (subst (λ k. Added d d' ws s.index k) language (Put-Added d d' s ws sized known n' h2))

-- The languages from the first to before `i` have a string at the index.
abbrev AreSpoken : Device → List ℕ → ℕ → ℕ → Type 0
AreSpoken d ws index i = (j : ℕ) → (l : ℕ) → j < i → get_elem? ws j ≡ some l → IsSpoken d index l

record AllAdded (d' : Device) (ws : List ℕ) (index i : ℕ) : Type 0 where
  known : Speaks d' ws
  spoken : AreSpoken d' ws index i

add_strings_from-AllAdded :
    (block : Bytes) (n i : ℕ) (d d' : Device) (p : Proxy) (ws : List ℕ) (index : ℕ)
    → AreLanguages ws
    → IsSized d
    → Speaks d ws
    → d.proxy ≡ some p
    → index ≢ 0
    → i + n ≤ length ws
    → AreSpoken d ws index i
    → add_strings_from block n i (languages ws) index d ≡ ok d'
    → AllAdded d' ws index (i + n)
unfolding add_strings_from
add_strings_from-AllAdded block zero i d d' p ws index v sized known proxy n le spoken h =
    let same = ok-injective d d' h in
    let start : i ≡ i + 0 = omega arith in
    subst (λ k. AllAdded d' ws index k) start
      (subst (λ e. AllAdded e ws index i) same (record { known = known; spoken = spoken }))
add_strings_from-AllAdded block (suc m) i d d' p ws index v sized known proxy n le spoken h =
    let (l, e) = get_elem?-some ws i (omega arith) in
    let (w, read, h1) = bind-ok (word_at (languages ws) i) _ d' h in
    let word : l ≡ w = ok-injective l w (sym (word_at-languages ws i l v e) ∙ read) in
    let (mid, step, h2) = bind-ok (add_string_of block d index w) _ d' h1 in
    let added =
      add_string_of-Added block d mid p ws index i w v sized known proxy n (e ∙ ap some word)
        step in
    let shift : suc i + m ≡ i + suc m = omega arith in
    let next : AreSpoken mid ws index (suc i) = λ j k below f. elim (Bool-cases (j == i)) [
      | inl same ↦
          let here : j ≡ i = (==_iff j i).0 same in
          let equal : w ≡ k = cc in subst (λ q. IsSpoken mid index q) equal added.now
      | inr other ↦ added.before k (spoken j k (ground (arith, other, below)) f)
    ] in
    subst (λ k. AllAdded d' ws index k) shift
      (add_strings_from-AllAdded block m (suc i) mid d' p ws index v added.sized added.known
        (added.same_proxy ∙ proxy) n (omega arith) next h2)

languages_defined-spoken :
    (n i : ℕ) (d : Device) (ws : List ℕ) (index : ℕ) (list : List UsbString)
    → AreLanguages ws
    → Speaks d ws
    → i + n ≤ length ws
    → ((j l : ℕ) → get_elem? ws j ≡ some l → speaks l list ≡ true)
    → languages_defined n i d index list ≡ ok no_error
unfolding languages_defined
languages_defined-spoken zero i d ws index list v known le all = refl
languages_defined-spoken (suc n) i d ws index list v known le all =
    let (l, e) = get_elem?-some ws i (omega arith) in
    let narrow : u8 i ≡ i = omega (arith, v.few) in
    rw (narrow, get_language_by_index-languages d ws i l v known e)
      (rw (all i l e)
        (languages_defined-spoken n (suc i) d ws index list v known (omega arith) all))

-- When the strings at an index other than 0 are added in all languages, from the device and without
-- a fault, the check of that string finds it defined in every language of the device.
pub add_strings-is_string_defined :
    (block : Bytes) (d d' : Device) (p : Proxy) (ws : List ℕ) (index : ℕ)
    → AreLanguages ws
    → IsSized d
    → Speaks d ws
    → d.proxy ≡ some p
    → index ≢ 0
    → add_strings block d index ≡ ok d'
    → is_string_defined d' index ≡ ok no_error
unfolding add_strings is_string_defined
add_strings-is_string_defined block d d' p ws index v sized known proxy n h =
    let (rest, first) = language_string-entry d (languages ws) known in
    let count : (2 + 2 * length ws) / 2 - 1 ≡ length ws = omega arith in
    let h1 : add_strings_from block ((2 + 2 * length ws) / 2 - 1) 0 (languages ws) index d ≡ ok d' =
      rw first at h in
    let h2 : add_strings_from block (length ws) 0 (languages ws) index d ≡ ok d' = rw count at h1 in
    let done =
      add_strings_from-AllAdded block (length ws) 0 d d' p ws index v sized known proxy n
        (omega arith) (λ j l below e. absurd (omega arith)) h2 in
    let start : 0 + length ws ≡ length ws = omega arith in
    let (l, e) = get_elem?-some ws 0 (omega (arith, v.some_word)) in
    let (list, slot, _) = done.spoken 0 l (omega (arith, v.some_word)) e in
    let all : (j l : ℕ) → get_elem? ws j ≡ some l → speaks l list ≡ true = λ j k f.
      (let (list', slot', t) = done.spoken j k (omega (arith, get_elem?-inside ws j k f)) f in
        let same : list' ≡ list = cc in subst (λ q. speaks k q ≡ true) same t) in
    rw (==_ne index 0 n, slot)
      (rw (get_language_count-languages d' ws v done.known)
        (languages_defined-spoken (length ws) 0 d' ws index list v done.known (omega arith) all))
