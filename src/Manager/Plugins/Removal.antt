-- ===== src/Manager/Plugins/Removal.antt =====
-- The arrays of filters and injectors as lists.
use usbproxy.Base.{
  ℕ, zero, suc, ◌+◌, ◌-◌, ◌<◌, ◌≡◌, refl, sym, ap, ap₂, ◌∙◌, ◌≢◌, Bool, true, false, Option, none,
  some, List, [], ◌∷◌, ◌++◌, map, append-nil, append_assoc, arith, ◌==◌, if◌then◌else◌, ==_ne,
  length, get_elem?, take, replicate, length-append, get_elem?-none, take-append_length,
  get_elem?-at, u8,
}
use usbproxy.Result.{put_index-at, ok, fault, put_index}
use usbproxy.Manager.Plugins.{Slots, resize, shift, look, remove}

module _ {ℓ} {A : Type ℓ} where
  -- The array that holds these entries, all of them set.
  abbrev pub slots_of : List A → Slots A
  slots_of [] = record { items = none; count = 0 }
  slots_of (x ∷ xs) = record { items = some (map some (x ∷ xs)); count = length (x ∷ xs) }

  pub slots_of-filled :
      (xs : List A)
      → length xs ≢ 0
      → slots_of xs ≡ record { items = some (map some xs); count = length xs }
  slots_of-filled [] h = absurd (h refl)
  slots_of-filled (x ∷ xs) h = refl

  pub length-map-some : (xs : List A) → length (map some xs) ≡ length xs
  length-map-some [] = refl
  length-map-some (x ∷ xs) = ap suc (length-map-some xs)

  shift-closes :
      (pre : List (Option A)) (x : Option A) (post : List (Option A)) (n i : ℕ)
      → length post ≡ n
      → suc (length pre) ≡ i
      → (last : Option A) × (shift n i (pre ++ (x ∷ post)) ≡ ok (pre ++ (post ++ (last ∷ []))))
  unfolding shift
  shift-closes pre x [] zero i h k = (x, refl)
  shift-closes pre x [] (suc n) i h k = absurd (omega arith)
  shift-closes pre x (y ∷ post) zero i h k = absurd (omega arith)
  shift-closes pre x (y ∷ post) (suc n) i h k =
      let read : get_elem? (pre ++ (x ∷ y ∷ post)) i ≡ some y =
        rw (sym (append_assoc pre (x ∷ []) (y ∷ post)))
          (get_elem?-at (pre ++ (x ∷ [])) y post i (omega (arith, length-append pre (x ∷ [])))) in
      let written : put_index (pre ++ (x ∷ y ∷ post)) (i - 1) y ≡ ok (pre ++ (y ∷ y ∷ post)) =
        put_index-at pre x y (y ∷ post) (i - 1) (omega arith) in
      let (last, e) =
        shift-closes (pre ++ (y ∷ [])) y post n (suc i) (omega arith)
          (omega (arith, length-append pre (y ∷ []))) in
      (
        last,
        rw (read, written)
            (ap (shift n (suc i)) (sym (append_assoc pre (y ∷ []) (y ∷ post)))
              ∙ e
              ∙ ap ok (append_assoc pre (y ∷ []) (post ++ (last ∷ [])))),
      )

  pub map-append : (xs ys : List A) → map some (xs ++ ys) ≡ map some xs ++ map some ys
  map-append [] ys = refl
  map-append (x ∷ xs) ys = ap (◌∷◌ (some x)) (map-append xs ys)

  resize-append : (n : ℕ) (xs ys : List (Option A)) → length xs ≡ n → resize n (xs ++ ys) ≡ xs
  resize-append n xs ys h =
      let none_new : n - length (xs ++ ys) ≡ 0 = omega (arith, length-append xs ys) in
      let kept : take n (xs ++ ys) ≡ xs =
        ap (λ k. take k (xs ++ ys)) (sym h) ∙ take-append_length xs ys in
      ap₂ (λ k zs. zs ++ replicate k none) none_new kept ∙ append-nil xs

  look-within :
      (pre : List (Option A)) (x : Option A) (post : List (Option A)) (count k : ℕ) (free : Bool)
      → length pre ≡ k
      → (o : Option A) × (look (record { items = some (pre ++ (x ∷ post)); count = count }) k free
          ≡ ok o)
  look-within pre x post count k true h = (x, rw (get_elem?-at pre x post k h) refl)
  look-within pre x post count k false h = (none, refl)

  remove-long :
      (pre : List A) (x : A) (post : List A) (free : Bool)
      → length (pre ++ post) ≢ 0
      → length (pre ++ post) < 255
      → remove
          (record {
            items = some (map some pre ++ (some x ∷ map some post));
            count = suc (length (pre ++ post));
          })
          (length pre)
          free
        ≡ ok (slots_of (pre ++ post))
  unfolding remove
  remove-long pre x post free some_left small =
      let n = length (pre ++ post) in
      let front : length (map some pre) ≡ length pre = length-map-some pre in
      let (o, looked) =
        look-within (map some pre) (some x) (map some post) (suc n) (length pre) free front in
      let (last, shifted) =
        shift-closes (map some pre) (some x) (map some post) (suc n - suc (length pre))
          (suc (length pre)) (omega (arith, length-map-some post, length-append pre post))
          (omega (arith, front)) in
      let many : (suc n == 1) ≡ false = ==_ne (suc n) 1 (λ e. some_left (omega arith)) in
      let fewer : u8 (suc n + 255) ≡ n = omega arith in
      let whole : map some (pre ++ post) ≡ map some pre ++ map some post = map-append pre post in
      let cut : resize n (map some pre ++ (map some post ++ (last ∷ []))) ≡ map some (pre ++ post) =
        ap (resize n) (sym (append_assoc (map some pre) (map some post) (last ∷ [])))
        ∙ resize-append n (map some pre ++ map some post) (last ∷ [])
            (ap length (sym whole) ∙ length-map-some (pre ++ post))
        ∙ sym whole in
      rw (looked, many, shifted)
        (ap
            (λ k. ok (record {
              items = some (resize k (map some pre ++ (map some post ++ (last ∷ []))));
              count = k;
            }))
            fewer
          ∙ ap (λ ys. ok (record { items = some ys; count = n })) cut
          ∙ ap ok (sym (slots_of-filled (pre ++ post) some_left)))

  filled_at :
      (pre : List A) (x : A) (post : List A)
      → slots_of (pre ++ (x ∷ post)) ≡ record {
        items = some (map some pre ++ (some x ∷ map some post));
        count = suc (length (pre ++ post));
      }
  filled_at pre x post =
      slots_of-filled (pre ++ (x ∷ post)) (λ e. omega (arith, length-append pre (x ∷ post)))
      ∙ ap₂ (λ ys k. record { items = some ys; count = k }) (map-append pre (x ∷ post))
          (omega (arith, length-append pre (x ∷ post), length-append pre post))

  -- Removing an entry within bounds, whether it is freed or not, leaves the others in order.
  pub remove-slots_of :
      (pre : List A) (x : A) (post : List A) (free : Bool)
      → length (pre ++ post) < 255
      → remove (slots_of (pre ++ (x ∷ post))) (length pre) free ≡ ok (slots_of (pre ++ post))
  unfolding remove
  remove-slots_of [] x [] true small = refl
  remove-slots_of [] x [] false small = refl
  remove-slots_of [] x (y ∷ post) free small =
      remove-long [] x (y ∷ post) free (λ e. omega arith) small
  remove-slots_of (p ∷ pre) x post free small =
      ap (λ s. remove s (length (p ∷ pre)) free) (filled_at (p ∷ pre) x post)
      ∙ remove-long (p ∷ pre) x post free (λ e. omega arith) small

  remove-beyond :
      (ys : List (Option A)) (n index : ℕ) (free : Bool)
      → length ys ≡ suc n
      → n ≢ 0
      → n < 255
      → n < index
      → remove (record { items = some ys; count = suc n }) index free
        ≡ (if free then fault else ok (record { items = some (resize n ys); count = n }))
  unfolding remove shift
  remove-beyond ys n index true size some_left small out =
      rw (get_elem?-none ys index (omega arith)) refl
  remove-beyond ys n index false size some_left small out =
      let no_rounds : suc n - suc index ≡ 0 = omega arith in
      let fewer : u8 (suc n + 255) ≡ n = omega arith in
      rw (==_ne (suc n) 1 (λ e. some_left (omega arith)), no_rounds)
        (ap (λ k. ok (record { items = some (resize k ys); count = k })) fewer)

  -- An index out of bounds, in an array of at least two, takes the last entry away where no entry
  -- is to be freed, and reads out of bounds where one is.
  pub remove-out_of_bounds :
      (xs : List A) (last : A) (index : ℕ) (free : Bool)
      → length xs ≢ 0
      → length xs < 255
      → length xs < index
      → remove (slots_of (xs ++ (last ∷ []))) index free
        ≡ (if free then fault else ok (slots_of xs))
  remove-out_of_bounds xs last index free some_left small out =
      let ys = map some xs ++ (some last ∷ []) in
      let n = length xs in
      let filled : slots_of (xs ++ (last ∷ [])) ≡ record { items = some ys; count = suc n } =
        filled_at xs last []
        ∙ ap (λ k. record { items = some ys; count = suc (length k) }) (append-nil xs) in
      let size : length ys ≡ suc n =
        omega (arith, length-append (map some xs) (some last ∷ []), length-map-some xs) in
      let rest : record { items = some (resize n ys); count = n } ≡ slots_of xs =
        ap (λ zs. record { items = some zs; count = n })
          (resize-append n (map some xs) (some last ∷ []) (length-map-some xs))
        ∙ sym (slots_of-filled xs some_left) in
      ap (λ s. remove s index free) filled
      ∙ remove-beyond ys n index free size some_left small out
      ∙ ap (λ s. if free then fault else ok s) rest
