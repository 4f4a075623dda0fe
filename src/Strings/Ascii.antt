-- ===== src/Strings/Ascii.antt =====
-- What a string made from ASCII reads back as.
use usbproxy.Base.{
  ℕ, suc, ◌+◌, ◌-◌, ◌*◌, ◌/◌, ◌%◌, ◌≤◌, ◌≡◌, refl, sym, ap, ap₂, ◌∙◌, some, List, [], ◌∷◌, ◌++◌,
  map, append_assoc, arith, ltb, ◌==◌, if◌then◌else◌, length, get_elem?, length-append,
  get_elem?-at, Bytes, u8,
}
use usbproxy.Result.{ok}
use usbproxy.Strings.{word_bytes, widen, from_ascii, ascii_from, get_ascii}

-- What `get_ascii` makes of a word.
abbrev pub shown : ℕ → ℕ
shown w = if w / 256 == 0 then w % 256 else 63

ascii_from-words :
    (ws : List ℕ) (i : ℕ) (pre : Bytes)
    → length pre ≡ 2 + 2 * i
    → ascii_from (length ws) i (pre ++ word_bytes ws) ≡ ok (map shown ws)
unfolding ascii_from word_bytes
ascii_from-words [] i pre h = refl
ascii_from-words (w ∷ ws) i pre h =
    let low = w % 256 in
    let high = w / 256 in
    let tail = word_bytes ws in
    let second : get_elem? (pre ++ (low ∷ high ∷ tail)) (3 + 2 * i) ≡ some high =
      rw (sym (append_assoc pre (low ∷ []) (high ∷ tail))) (
        get_elem?-at (pre ++ (low ∷ [])) high tail (3 + 2 * i)
          (omega (arith, length-append pre (low ∷ [])))) in
    let later : ascii_from (length ws) (suc i) (pre ++ (low ∷ high ∷ tail)) ≡ ok (map shown ws) =
      rw (sym (append_assoc pre (low ∷ high ∷ []) tail)) (
        ascii_from-words ws (suc i) (pre ++ (low ∷ high ∷ []))
          (omega (arith, length-append pre (low ∷ high ∷ [])))) in
    rw (get_elem?-at pre low (high ∷ tail) (2 + 2 * i) h, second, later)

shown-widen : (c : ℕ) → shown (widen c) ≡ (if ltb c 128 then c else 63)
shown-widen c = ground arith

map-shown : (cs : Bytes) → map shown (map widen cs) ≡ map (λ c. if ltb c 128 then c else 63) cs
map-shown [] = refl
map-shown (c ∷ cs) = ap₂ ◌∷◌ (shown-widen c) (map-shown cs)

length-map : (cs : Bytes) → length (map widen cs) ≡ length cs
length-map [] = refl
length-map (c ∷ cs) = ap suc (length-map cs)

-- A string of at most 126 characters reads back as it was, with a question mark in place of
-- each character that is not ASCII.
pub get_ascii-from_ascii :
    (value : Bytes) (index language_id : ℕ)
    → length value ≤ 126
    → get_ascii (from_ascii value index language_id)
      ≡ ok (map (λ c. if ltb c 128 then c else 63) value)
unfolding get_ascii from_ascii
get_ascii-from_ascii value index language_id h =
    let d = u8 ((length value + 1) * 2) ∷ 3 ∷ word_bytes (map widen value) in
    let count : u8 ((length value + 1) * 2) / 2 - 1 ≡ length (map widen value) =
      omega (arith, length-map value) in
    ap (λ n. ascii_from n 0 d) count
    ∙ ascii_from-words (map widen value) 0 (u8 ((length value + 1) * 2) ∷ 3 ∷ []) refl
    ∙ ap ok (map-shown value)
