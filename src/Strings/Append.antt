-- ===== src/Strings/Append.antt =====
-- The list of languages, string 0, grows by `append_char`.
use usbproxy.Base.{
  ℕ, ◌+◌, ◌-◌, ◌*◌, ◌/◌, ◌%◌, ◌≤◌, ◌≡◌, refl, sym, ap, ◌∙◌, true, false, List, [], ◌∷◌, ◌++◌,
  append_assoc, arith, ltb, length, take, length-append, take_all, Bytes, u8,
}
use usbproxy.Result.{put_index-at, ok, put_index}
use usbproxy.Strings.{UsbString, word_bytes, append_char}

-- String 0 with these languages.
abbrev pub languages : List ℕ → UsbString
languages ws = record {
  descriptor = (2 + 2 * length ws) ∷ 3 ∷ word_bytes ws;
  index = 0;
  language_id = 0;
}

length-word_bytes : (ws : List ℕ) → length (word_bytes ws) ≡ 2 * length ws
unfolding word_bytes
length-word_bytes [] = refl
length-word_bytes (w ∷ ws) = omega (arith, length-word_bytes ws)

word_bytes-append :
    (ws : List ℕ) (u : ℕ) → word_bytes (ws ++ (u ∷ [])) ≡ word_bytes ws ++ (u % 256 ∷ u / 256 ∷ [])
unfolding word_bytes
word_bytes-append [] u = refl
word_bytes-append (w ∷ ws) u = ap (λ r. w % 256 ∷ w / 256 ∷ r) (word_bytes-append ws u)

-- On string 0 `append_char` adds one language and leaves the others, up to 125 of them.
pub append_char-languages :
    (ws : List ℕ) (f0 f1 u : ℕ)
    → length ws ≤ 125
    → append_char (languages ws) (f0 ∷ f1 ∷ []) u ≡ ok (languages (ws ++ (u ∷ [])))
unfolding append_char
append_char-languages ws f0 f1 u h =
    let n = length ws in
    let len = 2 + 2 * n + 2 in
    let low = u % 256 in
    let high = u / 256 in
    let head : Bytes = u8 len ∷ 3 ∷ word_bytes ws in
    let whole : take len ((2 + 2 * n) ∷ 3 ∷ (word_bytes ws ++ (f0 ∷ f1 ∷ [])))
        ≡ (2 + 2 * n) ∷ 3 ∷ (word_bytes ws ++ (f0 ∷ f1 ∷ [])) =
      take_all _ _
        (omega (arith, length-append (word_bytes ws) (f0 ∷ f1 ∷ []), length-word_bytes ws)) in
    let start : ltb 0 (length ((2 + 2 * n) ∷ 3 ∷ (word_bytes ws ++ (f0 ∷ f1 ∷ [])))) ≡ true =
      ground arith in
    let wide : ltb (len / 2) 2 ≡ false = ground arith in
    let first : put_index (head ++ (f0 ∷ f1 ∷ [])) (2 + 2 * (len / 2 - 2)) low
        ≡ ok (head ++ (low ∷ f1 ∷ [])) =
      put_index-at head f0 low (f1 ∷ []) _ (omega (arith, length-word_bytes ws)) in
    let second : put_index (head ++ (low ∷ f1 ∷ [])) (3 + 2 * (len / 2 - 2)) high
        ≡ ok (head ++ (low ∷ high ∷ [])) =
      ap (λ d. put_index d (3 + 2 * (len / 2 - 2)) high)
        (sym (append_assoc head (low ∷ []) (f1 ∷ [])))
      ∙ put_index-at (head ++ (low ∷ [])) f1 high [] _
          (omega (arith, length-append head (low ∷ []), length-word_bytes ws))
      ∙ ap ok (append_assoc head (low ∷ []) (high ∷ [])) in
    let total : u8 len ≡ 2 + 2 * length (ws ++ (u ∷ [])) =
      omega (arith, length-append ws (u ∷ [])) in
    rw (whole, start, wide, first, second, total, word_bytes-append ws u)
