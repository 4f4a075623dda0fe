-- ===== src/Result.antt =====
-- How a piece of the program ends.
use usbproxy.Base.{
  ℕ, ◌≡◌, refl, sym, ap, subst, ◌∙◌, ◌≢◌, inl, inr, Option, none, some, List, ◌∷◌, ◌++◌, arith, ltb,
  leb, if◌then◌else◌, ltb→lt, lt→ltb, Bool-cases, length, get_elem?, set, take, drop, length-append,
  length-set, get_elem?-set_self, get_elem?-set_ne, set-at, Bytes,
}

-- `fault` is undefined behaviour of the source: a read or write outside an object, or through a null
-- pointer. `exits` is a call of `exit`. `spins` means that a loop has gone through all its fuel.
pub data Result {ℓ} (A : Type ℓ) : Type ℓ where
  ok : A → Result A
  fault : Result A
  exits : Result A
  spins : Result A

infixl 5 ◌>>=◌
abbrev pub ◌>>=◌ {ℓ κ} : {A : Type ℓ} {B : Type κ} → Result A → (A → Result B) → Result B
ok a >>= f = f a
fault >>= f = fault
exits >>= f = exits
spins >>= f = spins

-- A pointer that is dereferenced.
abbrev pub deref {ℓ} : {A : Type ℓ} → Option A → Result A
deref none = fault
deref (some a) = ok a

-- An entry of an array.
abbrev pub at_index {ℓ} : {A : Type ℓ} → List A → ℕ → Result A
at_index xs i = deref (get_elem? xs i)

-- A write into an array.
abbrev pub put_index {ℓ} : {A : Type ℓ} → List A → ℕ → A → Result (List A)
put_index xs i a = if ltb i (length xs) then ok (set xs i a) else fault

-- `memcpy` of `n` bytes from the buffer.
abbrev pub read_bytes : ℕ → Bytes → Result Bytes
read_bytes n bs = if leb n (length bs) then ok (take n bs) else fault

-- `memcpy` of the bytes to the start of an object that holds `old`.
abbrev pub overlay : Bytes → Bytes → Result Bytes
overlay old new = if leb (length new) (length old) then ok (new ++ drop (length new) old) else fault

pub ok-injective {ℓ} : {A : Type ℓ} (a b : A) → ok a ≡ ok b → a ≡ b
ok-injective a b e = cc

pub deref-ok {ℓ} : {A : Type ℓ} (o : Option A) (a : A) → deref o ≡ ok a → o ≡ some a
deref-ok none a e = cc
deref-ok (some b) a e = ap some (ok-injective b a e)

-- What a chain that succeeds has passed through.
pub bind-ok {ℓ κ} :
    {A : Type ℓ} {B : Type κ} (r : Result A) (f : A → Result B) (b : B)
    → r >>= f ≡ ok b
    → (a : A) × (r ≡ ok a) × (f a ≡ ok b)
bind-ok (ok a) f b e = (a, refl, e)
bind-ok fault f b e = cc
bind-ok exits f b e = cc
bind-ok spins f b e = cc

pub put_index-at {ℓ} :
    {A : Type ℓ} (pre : List A) (old new : A) (rest : List A) (k : ℕ)
    → length pre ≡ k
    → put_index (pre ++ (old ∷ rest)) k new ≡ ok (pre ++ (new ∷ rest))
put_index-at pre old new rest k h = rw (sym h) (
    rw (
      lt→ltb (length pre) (length (pre ++ (old ∷ rest)))
          (omega (arith, length-append pre (old ∷ rest))),
      set-at pre old new rest,
    ))

-- What a write that succeeds has done.
pub record Written {ℓ} {A : Type ℓ} (xs : List A) (i : ℕ) (v : A) (ys : List A) : Type ℓ where
  pub here : get_elem? ys i ≡ some v
  pub elsewhere : (j : ℕ) → i ≢ j → get_elem? ys j ≡ get_elem? xs j

pub put_index-Written {ℓ} :
    {A : Type ℓ} (xs : List A) (i : ℕ) (v : A) (ys : List A)
    → put_index xs i v ≡ ok ys
    → Written xs i v ys
put_index-Written xs i v ys e = elim (Bool-cases (ltb i (length xs))) [
  | inl inside ↦
      let same : ok (set xs i v) ≡ ok ys = rw inside at e in
      let moved : set xs i v ≡ ys = cc in
      subst (λ zs. Written xs i v zs) moved
        (record {
          here = get_elem?-set_self xs i v (ltb→lt i (length xs) inside);
          elsewhere = λ j n. get_elem?-set_ne xs i j v n;
        })
  | inr out ↦ let never : fault ≡ ok ys = rw out at e in absurd (cc never)
]

pub length-put_index {ℓ} :
    {A : Type ℓ} (xs : List A) (i : ℕ) (v : A) (ys : List A)
    → put_index xs i v ≡ ok ys
    → length ys ≡ length xs
length-put_index xs i v ys e = elim (Bool-cases (ltb i (length xs))) [
  | inl inside ↦
      let same : ok (set xs i v) ≡ ok ys = rw inside at e in
      ap length (sym (ok-injective (set xs i v) ys same)) ∙ length-set xs i v
  | inr out ↦ let never : fault ≡ ok ys = rw out at e in absurd (cc never)
]
