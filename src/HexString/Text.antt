-- ===== src/HexString/Text.antt =====
-- What a hex string says.
use usbproxy.Base.{
  ℕ, zero, suc, ◌+◌, ◌-◌, ◌*◌, ◌/◌, ◌%◌, ◌≤◌, ◌<◌, ◌≡◌, refl, sym, ap, ap₂, ◌∙◌, Bool, true, false,
  ◌&&◌, Option, none, some, [], ◌∷◌, ◌++◌, append_assoc, arith, ltb, ◌==◌, if◌then◌else◌, ==_iff,
  both_true, below, below-holds, length, get_elem?, replicate, length-append, length-replicate, All,
  Bytes,
}
use usbproxy.Result.{◌>>=◌, ok, put_index-at}
use usbproxy.HexString.{put_index, hex_string, put_rest, hex_ascii, Buffer, put_digits}

-- The character of a hexadecimal digit.
abbrev pub digit : ℕ → ℕ
digit n = if ltb n 10 then 48 + n else 87 + n

-- An entry of the table holds the digits of its index, the first one low.
abbrev says : Option ℕ → ℕ → Bool
says none b = false
says (some word) b = word % 256 == digit (b / 16) && word / 256 == digit (b % 16)

table : below (λ b. says (get_elem? hex_ascii b) b) 256 ≡ true
unfolding below hex_ascii
table = refl

record Entry (b : ℕ) : Type 0 where
  word : ℕ
  there : get_elem? hex_ascii b ≡ some word
  first : word % 256 ≡ digit (b / 16)
  second : word / 256 ≡ digit (b % 16)

says-Entry : (b : ℕ) (o : Option ℕ) → get_elem? hex_ascii b ≡ o → says o b ≡ true → Entry b
says-Entry b none h e = absurd (cc e)
says-Entry b (some word) h e =
    let (low, high) = both_true (word % 256 == digit (b / 16)) (word / 256 == digit (b % 16)) e in
    record {
      word = word;
      there = h;
      first = (==_iff (word % 256) (digit (b / 16))).0 low;
      second = (==_iff (word / 256) (digit (b % 16))).0 high;
    }

entry : (b : ℕ) → b < 256 → Entry b
entry b l =
    says-Entry b (get_elem? hex_ascii b) refl
      (below-holds (λ b. says (get_elem? hex_ascii b) b) 256 b table l)

-- The text: the two digits of each byte with blanks between the bytes, and the zero at its end.
abbrev pub text_behind : Bytes → Buffer
text_behind [] = some 0 ∷ []
text_behind (b ∷ bytes) =
    some 32 ∷ (some (digit (b / 16)) ∷ (some (digit (b % 16)) ∷ text_behind bytes))

abbrev pub text : Bytes → Buffer
text [] = some 0 ∷ []
text (b ∷ bytes) = some (digit (b / 16)) ∷ (some (digit (b % 16)) ∷ text_behind bytes)

-- What is not written yet, for `n` more bytes, with the zero at the end.
abbrev blank : ℕ → Buffer
blank zero = some 0 ∷ []
blank (suc n) = none ∷ (none ∷ (none ∷ blank n))

put_digits-at :
    (pre rest : Buffer) (x y : Option ℕ) (i b : ℕ)
    → length pre ≡ i
    → b < 256
    → put_digits (pre ++ (x ∷ (y ∷ rest))) i b
      ≡ ok (pre ++ (some (digit (b / 16)) ∷ (some (digit (b % 16)) ∷ rest)))
unfolding put_digits
put_digits-at pre rest x y i b h l =
    let e = entry b l in
    let first_in = put_index-at pre x (some (digit (b / 16))) (y ∷ rest) i h in
    let longer : length (pre ++ (some (digit (b / 16)) ∷ [])) ≡ i + 1 =
      length-append pre (some (digit (b / 16)) ∷ []) ∙ omega arith in
    let second_in =
      put_index-at (pre ++ (some (digit (b / 16)) ∷ [])) y (some (digit (b % 16))) rest (i + 1)
        longer in
    rw (e.there, e.first, e.second, first_in)
      (rw
        (
          append_assoc pre (some (digit (b / 16)) ∷ []) (y ∷ rest),
          append_assoc pre (some (digit (b / 16)) ∷ []) (some (digit (b % 16)) ∷ rest),
        )
        at second_in)

put_rest-text :
    (bytes : Bytes) (i : ℕ) (pre : Buffer)
    → length pre ≡ i * 3 - 1
    → 1 ≤ i
    → All (λ b. b < 256) bytes
    → put_rest i bytes (pre ++ blank (length bytes)) ≡ ok (pre ++ text_behind bytes)
unfolding put_rest
put_rest-text [] i pre h l s = refl
put_rest-text (b ∷ bytes) i pre h l (small, s) =
    let d1 : Option ℕ = some (digit (b / 16)) in
    let d2 : Option ℕ = some (digit (b % 16)) in
    let rest = blank (length bytes) in
    let spaced = put_index-at pre none (some 32) (none ∷ (none ∷ rest)) (i * 3 - 1) h in
    let longer : length (pre ++ (some 32 ∷ [])) ≡ i * 3 =
      length-append pre (some 32 ∷ []) ∙ omega arith in
    let digits =
      rw
        (
          append_assoc pre (some 32 ∷ []) (none ∷ (none ∷ rest)),
          append_assoc pre (some 32 ∷ []) (d1 ∷ (d2 ∷ rest)),
        )
        at (put_digits-at (pre ++ (some 32 ∷ [])) rest none none (i * 3) b longer small) in
    let next : length (pre ++ (some 32 ∷ (d1 ∷ (d2 ∷ [])))) ≡ suc i * 3 - 1 =
      length-append pre (some 32 ∷ (d1 ∷ (d2 ∷ []))) ∙ omega arith in
    let after =
      rw
        (
          append_assoc pre (some 32 ∷ (d1 ∷ (d2 ∷ []))) rest,
          append_assoc pre (some 32 ∷ (d1 ∷ (d2 ∷ []))) (text_behind bytes),
        )
        at
        (put_rest-text bytes (suc i) (pre ++ (some 32 ∷ (d1 ∷ (d2 ∷ [])))) next (omega arith) s) in
    ap (λ r. r >>= λ spaced. put_digits spaced (i * 3) b >>= λ buf. put_rest (suc i) bytes buf)
      spaced
    ∙ ap (λ r. r >>= λ buf. put_rest (suc i) bytes buf) digits
    ∙ after

replicate-suc {ℓ} : {A : Type ℓ} (k : ℕ) (x : A) → replicate (suc k) x ≡ replicate k x ++ (x ∷ [])
replicate-suc zero x = refl
replicate-suc (suc k) x = ap (◌∷◌ x) (replicate-suc k x)

blank-replicate : (n : ℕ) → none ∷ (none ∷ blank n) ≡ replicate (n * 3 + 2) none ++ (some 0 ∷ [])
blank-replicate zero = refl
blank-replicate (suc n) =
    let size : suc n * 3 + 2 ≡ suc (suc (suc (n * 3 + 2))) = omega arith in
    ap (λ xs. none ∷ (none ∷ (none ∷ xs))) (blank-replicate n)
    ∙ ap (λ k. replicate k none ++ (some 0 ∷ [])) (sym size)

put_index-blank :
    (n : ℕ)
    → put_index (replicate (suc n * 3) none) (suc n * 3 - 1) (some 0) ≡ ok (none ∷ (none ∷ blank n))
put_index-blank n =
    let m = n * 3 + 2 in
    let size : suc n * 3 ≡ suc m = omega arith in
    let last : suc m - 1 ≡ m = omega arith in
    let nothing : Option ℕ = none in
    ap (λ k. put_index (replicate k nothing) (k - 1) (some 0)) size
    ∙ ap₂ (λ buf j. put_index buf j (some 0)) (replicate-suc m nothing) last
    ∙ put_index-at (replicate m nothing) nothing (some 0) [] m (length-replicate m nothing)
    ∙ ap ok (sym (blank-replicate n))

-- For up to 32 bytes below 256 the buffer is written completely and without a fault, and holds the
-- two hexadecimal digits of each byte, the high one first, with a blank between the bytes and a
-- zero at the end.
pub hex_string-text :
    (bytes : Bytes)
    → length bytes ≤ 32
    → All (λ b. b < 256) bytes
    → hex_string bytes ≡ ok (text bytes)
unfolding hex_string
hex_string-text [] l s = refl
hex_string-text (b ∷ bytes) l (small, s) =
    let short : ltb 32 (length (b ∷ bytes)) ≡ false = ground arith in
    let d1 : Option ℕ = some (digit (b / 16)) in
    let d2 : Option ℕ = some (digit (b % 16)) in
    rw short (
      ap (λ r. r >>= λ a. put_digits a 0 b >>= λ buf. put_rest 1 bytes buf)
        (put_index-blank (length bytes))
      ∙ ap (λ r. r >>= λ buf. put_rest 1 bytes buf)
          (put_digits-at [] (blank (length bytes)) none none 0 b refl small)
      ∙ put_rest-text bytes 1 (d1 ∷ (d2 ∷ [])) (omega arith) (omega arith) s)
