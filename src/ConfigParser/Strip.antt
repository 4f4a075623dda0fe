-- ===== src/ConfigParser/Strip.antt =====
-- What `StrStrip` takes off a string.
use usbproxy.Base.{
  ℕ, zero, suc, ◌+◌, ◌≤◌, ◌<◌, ◌≡◌, refl, sym, ap, ap₂, ◌∙◌, true, false, none, some, [], ◌∷◌, ◌++◌,
  append_assoc, arith, ◌==◌, if◌then◌else◌, length, get_or, take, length-append, take-append_length,
  drop-append_length, take_all, All, Bytes,
}
use usbproxy.ConfigParser.{is_blank, is_space, first_index, last_index, substr, str_strip}

-- Blank characters, and spaces of any kind.
abbrev pub IsBlank : ℕ → Type 0
IsBlank c = is_blank c ≡ true

abbrev pub IsSpace : ℕ → Type 0
IsSpace c = is_space c ≡ true

first_index-blanks :
    (pre : Bytes) (c : ℕ) (rest : Bytes)
    → All IsBlank pre
    → is_blank c ≡ false
    → first_index (pre ++ (c ∷ rest)) ≡ some (length pre)
unfolding first_index
first_index-blanks [] c rest h k = rw k refl
first_index-blanks (b ∷ pre) c rest h k = rw (h.0, first_index-blanks pre c rest h.1 k) refl

get_or-append :
    (front rest : Bytes) (k : ℕ) → get_or (front ++ rest) (length front + k) 0 ≡ get_or rest k 0
get_or-append [] rest k = ap (λ i. get_or rest i 0) (omega arith)
get_or-append (b ∷ front) rest k =
    let i : length (b ∷ front) + k ≡ suc (length front + k) = omega arith in
    ap (λ j. get_or (b ∷ (front ++ rest)) j 0) i ∙ get_or-append front rest k

All-get_or :
    (post : Bytes) (k : ℕ) → k < length post → All IsSpace post → is_space (get_or post k 0) ≡ true
All-get_or [] k h a = absurd (omega arith)
All-get_or (b ∷ post) zero h a = a.0
All-get_or (b ∷ post) (suc k) h a = All-get_or post k (omega arith) a.1

last_index_step :
    (x : ℕ) (s : Bytes)
    → 1 ≤ x
    → last_index (suc x) s ≡ (if is_space (get_or s x 0) then last_index x s else some x)
unfolding last_index
last_index_step zero s h = absurd (omega arith)
last_index_step (suc k) s h = refl

last_index-spaces :
    (front : Bytes) (d : ℕ) (post : Bytes) (k : ℕ)
    → 1 ≤ length front
    → is_space d ≡ false
    → All IsSpace post
    → k ≤ length post
    → last_index (suc (length front + k)) (front ++ (d ∷ post)) ≡ some (length front)
last_index-spaces front d post zero some_front h a small =
    let start : length front + 0 ≡ length front = omega arith in
    let here : is_space (get_or (front ++ (d ∷ post)) (length front + 0) 0) ≡ false =
      ap is_space (get_or-append front (d ∷ post) 0) ∙ h in
    last_index_step (length front + 0) (front ++ (d ∷ post)) (omega arith) ∙ rw here (ap some start)
last_index-spaces front d post (suc k) some_front h a small =
    let here : is_space (get_or (front ++ (d ∷ post)) (length front + suc k) 0) ≡ true =
      ap is_space (get_or-append front (d ∷ post) (suc k)) ∙ All-get_or post k (omega arith) a in
    let down : length front + suc k ≡ suc (length front + k) = omega arith in
    last_index_step (length front + suc k) (front ++ (d ∷ post)) (omega arith)
    ∙ rw here (
        ap (λ x. last_index x (front ++ (d ∷ post))) down
        ∙ last_index-spaces front d post k some_front h a (omega arith))

-- A string's core: it begins with `c` and ends with `d`, and neither is a space.
pub record IsCore (core : Bytes) : Type 0 where
  pub c : ℕ
  pub after : Bytes
  pub begins : core ≡ c ∷ after
  pub before : Bytes
  pub d : ℕ
  pub ends : core ≡ before ++ (d ∷ [])
  pub c_solid : is_space c ≡ false
  pub d_solid : is_space d ≡ false

solid-not_blank : (c : ℕ) → is_space c ≡ false → is_blank c ≡ false
solid-not_blank c h = ground arith

first_not_newline :
    (pre : Bytes) (c : ℕ) (rest : Bytes)
    → All IsBlank pre
    → is_space c ≡ false
    → (get_or (pre ++ (c ∷ rest)) 0 0 == 10) ≡ false
first_not_newline [] c rest h k = ground arith
first_not_newline (b ∷ pre) c rest h k = let blank : is_blank b ≡ true = h.0 in ground arith

take-core :
    (pre core post : Bytes) (n : ℕ)
    → n ≡ length core
    → substr (length pre) n (pre ++ (core ++ post)) ≡ core
take-core pre core post n e =
    ap (take n) (drop-append_length pre (core ++ post))
    ∙ ap (λ k. take k (core ++ post)) e
    ∙ take-append_length core post

-- `StrStrip` takes off the blanks in front of a string's core and the spaces behind it, unless the
-- core is a single character at the very start.
pub str_strip-core :
    (pre core post : Bytes)
    → All IsBlank pre
    → IsCore core
    → All IsSpace post
    → 2 ≤ length pre + length core
    → str_strip (pre ++ (core ++ post)) ≡ core
unfolding str_strip
str_strip-core pre core post h v a long =
    let s = pre ++ (core ++ post) in
    let from_c : s ≡ pre ++ (v.c ∷ (v.after ++ post)) = ap (λ k. pre ++ (k ++ post)) v.begins in
    let front = pre ++ v.before in
    let from_d : s ≡ front ++ (v.d ∷ post) =
      ap (λ k. pre ++ (k ++ post)) v.ends
      ∙ ap (λ k. pre ++ k) (append_assoc v.before (v.d ∷ []) post)
      ∙ sym (append_assoc pre v.before (v.d ∷ post)) in
    let core_size : length core ≡ length v.before + 1 =
      ap length v.ends ∙ length-append v.before (v.d ∷ []) in
    let front_size : length front ≡ length pre + length v.before = length-append pre v.before in
    let first : first_index s ≡ some (length pre) =
      ap first_index from_c
      ∙ first_index-blanks pre v.c (v.after ++ post) h (solid-not_blank v.c v.c_solid) in
    let size : length s ≡ suc (length front + length post) =
      omega (arith, length-append pre (core ++ post), length-append core post) in
    let last : last_index (length s) s ≡ some (length front) =
      ap₂ last_index size from_d
      ∙ last_index-spaces front v.d post (length post) (omega arith) v.d_solid a (omega arith) in
    let line : (get_or s 0 0 == 10) ≡ false =
      ap (λ k. get_or k 0 0 == 10) from_c
      ∙ first_not_newline pre v.c (v.after ++ post) h v.c_solid in
    rw (line, first, last) (take-core pre core post _ (omega arith))

solid-not_newline : (c : ℕ) → is_space c ≡ false → (c == 10) ≡ false
solid-not_newline c h = ground arith

last_index-none :
    (c : ℕ) (post : Bytes) (x : ℕ)
    → All IsSpace post
    → x ≤ suc (length post)
    → last_index x (c ∷ post) ≡ none
unfolding last_index
last_index-none c post zero a h = refl
last_index-none c post (suc zero) a h = refl
last_index-none c post (suc (suc k)) a h =
    rw (All-get_or post k (omega arith) a) (last_index-none c post (suc k) a (omega arith))

-- A single character at the very start keeps all that stands behind it, spaces too.
pub str_strip-single :
    (c : ℕ) (post : Bytes) → is_space c ≡ false → All IsSpace post → str_strip (c ∷ post) ≡ c ∷ post
unfolding str_strip
str_strip-single c post h a =
    let line : (c == 10) ≡ false = solid-not_newline c h in
    rw (line, solid-not_blank c h, last_index-none c post (suc (length post)) a (omega arith))
      (take_all _ (c ∷ post) (omega arith))
