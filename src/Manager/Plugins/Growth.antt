-- ===== src/Manager/Plugins/Growth.antt =====
-- Entries added to the arrays of filters and injectors, and read.
use usbproxy.Base.{
  ℕ, zero, suc, ◌+◌, ◌-◌, ◌≤◌, ◌<◌, ◌≡◌, refl, sym, ap, ap₂, ◌∙◌, ◌≢◌, inl, inr, Bool, false,
  Option, none, some, List, [], ◌∷◌, ◌++◌, map, append-nil, arith, leb, ◌==◌, if◌then◌else◌, leb→le,
  ==_iff, ==_ne, below, Bool-cases, length, get_elem?, replicate, length-append, get_elem?-none,
  take_all, u8,
}
use usbproxy.Result.{ok, fault, deref, put_index, put_index-at}
use usbproxy.Manager.Plugins.{resize, add, get, remove, cleanup}
use usbproxy.Manager.Plugins.Removal.{
  slots_of, slots_of-filled, map-append, length-map-some, remove-slots_of,
}

module _ {ℓ} {A : Type ℓ} where
  resize-more : (zs : List (Option A)) → resize (length zs + 1) zs ≡ zs ++ (none ∷ [])
  resize-more zs =
      let one : length zs + 1 - length zs ≡ 1 = omega arith in
      ap₂ (λ ys k. ys ++ replicate k none) (take_all (length zs + 1) zs (omega arith)) one

  add-filled :
      (xs : List A) (x : A)
      → length xs ≢ 0
      → length xs < 255
      → add (record { items = some (map some xs); count = length xs }) x
        ≡ ok (slots_of (xs ++ (x ∷ [])))
  unfolding add
  add-filled xs x some_left small =
      let n = length xs in
      let zs = map some xs in
      let more : u8 (n + 1) ≡ n + 1 = omega arith in
      let grown : resize (n + 1) zs ≡ zs ++ (none ∷ []) =
        ap (λ k. resize (k + 1) zs) (sym (length-map-some xs)) ∙ resize-more zs in
      let written : put_index (zs ++ (none ∷ [])) (n + 1 - 1) (some x) ≡ ok (zs ++ (some x ∷ [])) =
        put_index-at zs none (some x) [] (n + 1 - 1) (omega (arith, length-map-some xs)) in
      rw (more, ==_ne (n + 1) 0 (λ e. omega arith), grown, written)
        (ap₂ (λ ys k. ok (record { items = some ys; count = k })) (sym (map-append xs (x ∷ [])))
            (omega (arith, length-append xs (x ∷ [])))
          ∙ ap ok (
              sym
                (slots_of-filled (xs ++ (x ∷ [])) (λ e. omega (arith, length-append xs (x ∷ []))))))

  -- `add` appends, up to 255 entries; with 255 it writes out of bounds.
  pub add-slots_of :
      (xs : List A) (x : A)
      → length xs ≤ 255
      → add (slots_of xs) x ≡ (if length xs == 255 then fault else ok (slots_of (xs ++ (x ∷ []))))
  unfolding add
  add-slots_of [] x h = refl
  add-slots_of (y ∷ xs) x h = elim (Bool-cases (length (y ∷ xs) == 255)) [
    | inl limit ↦
        let n : length (y ∷ xs) ≡ 255 = (==_iff (length (y ∷ xs)) 255).0 limit in
        let wraps : u8 (length (y ∷ xs) + 1) ≡ 0 = omega arith in rw (limit, wraps) refl
    | inr below ↦ rw below (add-filled (y ∷ xs) x (λ e. omega arith) (ground arith))
  ]

  get_elem?-map-some :
      (xs : List A) (i : ℕ)
      → i < length xs
      → deref (get_elem? (map some xs) i) ≡ ok (get_elem? xs i)
  get_elem?-map-some [] i h = absurd (omega arith)
  get_elem?-map-some (x ∷ xs) zero h = refl
  get_elem?-map-some (x ∷ xs) (suc i) h = get_elem?-map-some xs i (omega arith)

  -- `get` reads the entry at the index, and gives a null pointer out of bounds.
  pub get-slots_of : (xs : List A) (i : ℕ) → get (slots_of xs) i ≡ ok (get_elem? xs i)
  unfolding get
  get-slots_of [] i = refl
  get-slots_of (x ∷ xs) i = elim (Bool-cases (leb (length (x ∷ xs)) i)) [
    | inl out ↦ let beyond = get_elem?-none (x ∷ xs) i (leb→le _ _ out) in rw (out, beyond) refl
    | inr inside ↦ rw inside (get_elem?-map-some (x ∷ xs) i (ground arith))
  ]

  last_split : (x : A) (xs : List A) → (pre : List A) × (last : A) × (x ∷ xs ≡ pre ++ (last ∷ []))
  last_split x [] = ([], x, refl)
  last_split x (y ∷ xs) = let (pre, last, e) = last_split y xs in (x ∷ pre, last, ap (◌∷◌ x) e)

  count-slots_of : (xs : List A) → (slots_of xs).count ≡ length xs
  count-slots_of [] = refl
  count-slots_of (x ∷ xs) = refl

  -- `cleanup` takes as many rounds as there are entries, and leaves none, whichever it frees.
  pub cleanup-slots_of :
      (fuel : ℕ) (frees : A → Bool) (xs : List A)
      → length xs ≤ 255
      → length xs ≤ fuel
      → cleanup fuel frees (slots_of xs) ≡ ok (slots_of [])
  unfolding cleanup
  cleanup-slots_of zero frees [] small h = refl
  cleanup-slots_of zero frees (x ∷ xs) small h = absurd (omega arith)
  cleanup-slots_of (suc fuel) frees [] small h = refl
  cleanup-slots_of (suc fuel) frees (x ∷ xs) small h =
      let (pre, last, e) = last_split x xs in
      let k = length (x ∷ xs) - 1 in
      let size : length (x ∷ xs) ≡ length pre + 1 = ap length e ∙ length-append pre (last ∷ []) in
      let free : Bool = elim (get_elem? (x ∷ xs) k) [ none ↦ false | some y ↦ frees y ] in
      let removed : remove (slots_of (x ∷ xs)) k free ≡ ok (slots_of pre) =
        ap₂ (λ zs i. remove (slots_of zs) i free) e (omega arith)
        ∙ remove-slots_of pre last [] free (omega (arith, length-append pre []))
        ∙ ap (λ zs. ok (slots_of zs)) (append-nil pre) in
      rw (==_ne (length (x ∷ xs)) 0 (λ n. omega arith), get-slots_of (x ∷ xs) k, removed)
        (cleanup-slots_of fuel frees pre (omega arith) (omega arith))
