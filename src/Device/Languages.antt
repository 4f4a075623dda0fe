-- ===== src/Device/Languages.antt =====
-- The languages of a device, as words of string 0.
use usbproxy.Base.{
  ℕ, zero, suc, ◌+◌, ◌*◌, ◌/◌, ◌%◌, ◌≤◌, ◌<◌, ◌≡◌, refl, ap, ◌∙◌, ◌≢◌, inl, inr, true, some, List,
  [], ◌∷◌, arith, ◌==◌, lt→leb, ==_iff, Bool-cases, length, get_elem?, get_elem?-some,
  get_elem?-inside, All, All-get_elem?, Bytes, u8,
}
use usbproxy.Result.{ok, deref, at_index, bind-ok, deref-ok}
use usbproxy.Strings.{UsbString, word_bytes, get_char_count}
use usbproxy.Strings.Append.{languages}
use usbproxy.Device.{
  Device, language_string, word_at, get_language_count, get_language_by_index, has_language,
  add_language,
}

-- The words are 16-bit words, at least one and at most 125.
pub record AreLanguages (ws : List ℕ) : Type 0 where
  pub some_word : 1 ≤ length ws
  pub few : length ws ≤ 125
  pub words : All (λ w. w < 65536) ws

-- The device has these languages.
abbrev pub Speaks : Device → List ℕ → Type 0
Speaks d ws = language_string d ≡ ok (languages ws)

word_bytes-entry :
    (ws : List ℕ) (i w : ℕ)
    → get_elem? ws i ≡ some w
    → (get_elem? (word_bytes ws) (2 * i) ≡ some (w % 256))
      × (get_elem? (word_bytes ws) (suc (2 * i)) ≡ some (w / 256))
unfolding word_bytes
word_bytes-entry [] i w e = cc
word_bytes-entry (v ∷ ws) zero w e = let same : v ≡ w = cc in (rw same refl, rw same refl)
word_bytes-entry (v ∷ ws) (suc i) w e =
    let (low, high) = word_bytes-entry ws i w e in
    let shift : 2 * suc i ≡ suc (suc (2 * i)) = omega arith in (rw shift low, rw shift high)

pub word_at-languages :
    (ws : List ℕ) (i w : ℕ)
    → AreLanguages ws
    → get_elem? ws i ≡ some w
    → word_at (languages ws) i ≡ ok w
unfolding word_at
word_at-languages ws i w v e =
    let (low, high) = word_bytes-entry ws i w e in
    let (w', e', small) = All-get_elem? (λ u. u < 65536) ws i (get_elem?-inside ws i w e) v.words in
    let same : w' ≡ w = cc in
    let first : 2 + 2 * i ≡ suc (suc (2 * i)) = omega arith in
    let second : 3 + 2 * i ≡ suc (suc (suc (2 * i))) = omega arith in
    let sum : w % 256 + 256 * (w / 256) ≡ w = omega arith in rw (first, second, low, high, sum) refl

pub get_language_count-languages :
    (d : Device) (ws : List ℕ)
    → AreLanguages ws
    → Speaks d ws
    → get_language_count d ≡ ok (length ws)
unfolding get_language_count get_char_count
get_language_count-languages d ws v s =
    let count : u8 ((2 + 2 * length ws) / 2 + 255) ≡ length ws = omega (arith, v.few) in
    rw s (ap ok count)

pub get_language_by_index-languages :
    (d : Device) (ws : List ℕ) (i w : ℕ)
    → AreLanguages ws
    → Speaks d ws
    → get_elem? ws i ≡ some w
    → get_language_by_index d i ≡ ok w
unfolding get_language_by_index
get_language_by_index-languages d ws i w v s e =
    rw (get_language_count-languages d ws v s, lt→leb (length ws) i (get_elem?-inside ws i w e), s)
      (word_at-languages ws i w v e)

has_language-languages :
    (n i j l : ℕ) (ws : List ℕ)
    → AreLanguages ws
    → i + n ≤ length ws
    → i ≤ j
    → j < i + n
    → get_elem? ws j ≡ some l
    → has_language n i (languages ws) l ≡ ok true
unfolding has_language
has_language-languages zero i j l ws v h a b e = absurd (omega arith)
has_language-languages (suc n) i j l ws v h a b e =
    let (w, f) = get_elem?-some ws i (omega arith) in
    elim (Bool-cases (l == w)) [
      | inl same ↦ rw (word_at-languages ws i w v f) (rw same refl)
      | inr other ↦
          let apart : i ≢ j = λ (p : i ≡ j).
            let again : l ≡ w = cc in let t : (l == w) ≡ true = (==_iff l w).1 again in cc in
          rw (word_at-languages ws i w v f) (
            rw other (
              has_language-languages n (suc i) j l ws v (omega arith) (omega arith) (omega arith)
                e))
    ]

-- A language that the device has is not added again.
pub add_language-known :
    (block : Bytes) (d : Device) (ws : List ℕ) (j l : ℕ)
    → AreLanguages ws
    → Speaks d ws
    → get_elem? ws j ≡ some l
    → add_language block d l ≡ ok d
unfolding add_language
add_language-known block d ws j l v s e =
    rw
      (
        get_language_count-languages d ws v s,
        s,
        has_language-languages (length ws) 0 j l ws v (omega arith) (omega arith)
            (omega (arith, get_elem?-inside ws j l e)) e,
      )
      refl

-- Where the list of languages is.
pub language_string-entry :
    (d : Device) (s : UsbString)
    → language_string d ≡ ok s
    → (rest : List UsbString) × (get_elem? d.strings 0 ≡ some (some (s ∷ rest)))
unfolding language_string
language_string-entry d s h =
    let (slot, e1, h1) = bind-ok (at_index d.strings 0) _ s h in
    let (list, e2, h2) = bind-ok (deref slot) _ s h1 in
    let (rest, c) = split list s (deref-ok (get_elem? list 0) s h2) in
    (rest, deref-ok (get_elem? d.strings 0) slot e1 ∙ ap some (deref-ok slot list e2 ∙ ap some c))
  where
    split :
        (list : List UsbString) (s : UsbString)
        → get_elem? list 0 ≡ some s
        → (rest : List UsbString) × (list ≡ s ∷ rest)
    split [] s e = cc
    split (t ∷ ts) s e = (ts, cc)
