-- ===== src/Manager/Plugins.antt =====
-- The filters and the injectors of the manager in lib/Manager.cpp: two arrays with a count each,
-- handled alike. What is printed is left out, and so is the memory of the entries themselves.
pub mod Growth
pub mod Removal
use usbproxy.Base.{
  fun_ext, ℕ, zero, suc, ◌+◌, ◌-◌, ◌*◌, ◌/◌, ◌%◌, ◌^◌, ◌≤◌, ◌<◌, min, max, ◌≡◌, refl, sym, ap, ap₂,
  subst, ◌∙◌, ◌≢◌, ◌↔◌, ◌⊎◌, inl, inr, Bool, true, false, ◌&&◌, ◌||◌, not, Option, none, some, List,
  [], ◌∷◌, ◌++◌, map, append-nil, append_assoc, arith, ltb, leb, ◌==◌, if◌then◌else◌, ltb→lt,
  lt→ltb, leb→le, le→leb, lt→leb, ==_iff, ==_refl, ==_ne, if-cases, below, below-holds, Bool-cases,
  Option-cases, length, get_elem?, get_or, set, take, drop, replicate, length-append, length-set,
  get_elem?-set_self, get_elem?-set_ne, get_elem?-none, get_elem?-some, get_elem?-append_left,
  get_elem?-append_right, get_elem?-inside, get_elem?-replicate, get_elem?-take, take-append_length,
  drop-append_length, take-append_left, take_all, length-take, length-drop, length-replicate, All,
  All-append, All-get_elem?, All-set, All-replicate, get_elem?-at, set-at, Bytes, u8, u16, has,
}
use usbproxy.Result.{Result, ok, fault, exits, spins, ◌>>=◌, deref, at_index, put_index}

module _ {ℓ} where
  -- `items` is `none` for the null pointer; an entry is `none` where it was never set. The count is
  -- a `__u8`.
  pub record Slots (A : Type ℓ) : Type ℓ where
    pub items : Option (List (Option A))
    pub count : ℕ

module _ {ℓ} {A : Type ℓ} where
  unfoldable pub init : Slots A
  init = record { items = none; count = 0 }

  -- `realloc` to `n` entries.
  abbrev pub resize : ℕ → List (Option A) → List (Option A)
  resize n xs = take n xs ++ replicate (n - length xs) none

  -- `add_filter` and `add_injector`. A count that wraps to 0 makes the last write one in front of
  -- the array.
  unfoldable pub add : Slots A → A → Result (Slots A)
  add s x = elim s.items [
    | none ↦ ok (record { items = some (some x ∷ []); count = 1 })
    | some xs ↦
        let count' = u8 (s.count + 1) in
        if count' == 0 then fault else (do
          ys ← put_index (resize count' xs) (count' - 1) (some x)
          ok (record { items = some ys; count = count' }))
  ]

  -- `get_filter` and `get_injector`.
  unfoldable pub get : Slots A → ℕ → Result (Option A)
  get s index = elim s.items [
    | none ↦ ok none
    | some xs ↦ if leb s.count index then ok none else at_index xs index
  ]

  -- The loop of the removal, over the next `n` entries from `i` on.
  unfoldable pub shift : ℕ → ℕ → List (Option A) → Result (List (Option A))
  shift zero i xs = ok xs
  shift (suc n) i xs = do x ← at_index xs i; ys ← put_index xs (i - 1) x; shift n (suc i) ys

  -- The test `freeMemory && filters[index]`, which reads the entry.
  abbrev pub look : Slots A → ℕ → Bool → Result (Option A)
  look s index free = if free then (do xs ← deref s.items; at_index xs index) else ok none

  -- The array that a null pointer stands for has no entries.
  abbrev pub entries : Option (List (Option A)) → List (Option A)
  entries none = []
  entries (some xs) = xs

  -- `remove_filter` and `remove_injector`. An index out of bounds is reported, and then used.
  unfoldable pub remove : Slots A → ℕ → Bool → Result (Slots A)
  unfolding shift
  remove s index free = do
    x ← look s index free
    if s.count == 1 then ok (record { items = none; count = 0 }) else (do
      ys ← shift (s.count - suc index) (suc index) (entries s.items)
      let count' = u8 (s.count + 255)
      ok (record { items = some (resize count' ys); count = count' }))

  -- A loop of `cleanup`, which removes the last entry while there is one.
  unfoldable pub cleanup : ℕ → (A → Bool) → Slots A → Result (Slots A)
  unfolding remove
  cleanup zero frees s = if s.count == 0 then ok s else spins
  cleanup (suc fuel) frees s =
      let rest = (do
        last ← get s (s.count - 1)
        s' ← remove s (s.count - 1) (elim last [ none ↦ false | some x ↦ frees x ])
        cleanup fuel frees s') in
      if s.count == 0 then ok s else rest
