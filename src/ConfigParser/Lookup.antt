-- ===== src/ConfigParser/Lookup.antt =====
-- What the parser gives back of what it was told.
use usbproxy.Base.{
  ◌≡◌, refl, sym, ap, ap₂, ◌∙◌, ◌↔◌, inl, inr, Bool, true, false, Option, none, some, List, [], ◌∷◌,
  ◌++◌, ◌==◌, if◌then◌else◌, ==_iff, Bool-cases, Bytes,
}
use usbproxy.ConfigParser.{
  or_empty, extended, same, find, put, ConfigParser, set_string, get_string, add_to_vector,
  get_vector,
}

pub same_iff : (xs ys : Bytes) → (same xs ys ≡ true) ↔ (xs ≡ ys)
same_iff [] [] = (λ e. refl, λ e. refl)
same_iff [] (y ∷ ys) = (λ e. absurd (cc e), λ e. absurd (cc e))
same_iff (x ∷ xs) [] = (λ e. absurd (cc e), λ e. absurd (cc e))
same_iff (x ∷ xs) (y ∷ ys) = (
  λ t. elim (Bool-cases (x == y)) [
    | inl e ↦ ap₂ ◌∷◌ ((==_iff x y).0 e) ((same_iff xs ys).0 (rw e at t))
    | inr e ↦ let never : false ≡ true = rw e at t in absurd (cc never)
  ],
  λ e.
      let heads : x ≡ y = cc in
      let tails : xs ≡ ys = cc in rw ((==_iff x y).1 heads) ((same_iff xs ys).1 tails),
)

module _ {ℓ} {A : Type ℓ} where
  find-put :
      (key other : Bytes) (a : A) (entries : List (Bytes × A))
      → find other (put key a entries) ≡ (if same other key then some a else find other entries)
  unfolding find put
  find-put key other a [] = refl
  find-put key other a ((k, b) ∷ entries) = elim (Bool-cases (same key k)) [
    | inl e ↦
        let key_k : key ≡ k = (same_iff key k).0 e in
        elim (Bool-cases (same other key)) [
          | inl o ↦ rw (e, o) refl
          | inr o ↦
              let o' : same other k ≡ false = ap (same other) (sym key_k) ∙ o in rw (e, o, o') refl
        ]
    | inr e ↦ elim (Bool-cases (same other k)) [
      | inl o' ↦ elim (Bool-cases (same other key)) [
        | inl o ↦
            let key_k : key ≡ k = sym ((same_iff other key).0 o) ∙ (same_iff other k).0 o' in
            let always : same key k ≡ true = (same_iff key k).1 key_k in absurd (cc (e, always))
        | inr o ↦ rw (e, o', o) refl
      ]
      | inr o' ↦ rw (e, o') (find-put key other a entries)
    ]
  ]

or_empty-if {ℓ} :
    {A : Type ℓ} (b : Bool) (xs : List A) (o : Option (List A))
    → or_empty (if b then some xs else o) ≡ (if b then xs else or_empty o)
or_empty-if true xs o = refl
or_empty-if false xs o = refl

-- The last value that was set for a key is the one that it has, and other keys keep theirs.
pub get_string-set_string :
    (p : ConfigParser) (key other value : Bytes)
    → get_string (set_string p key value) other
      ≡ (if same other key then value else get_string p other)
unfolding get_string set_string
get_string-set_string p key other value =
    ap or_empty (find-put key other value p.strings)
    ∙ or_empty-if (same other key) value (find other p.strings)

extended-or_empty :
    (o : Option (List Bytes)) (value : Bytes) → extended o value ≡ or_empty o ++ (value ∷ [])
extended-or_empty none value = refl
extended-or_empty (some values) value = refl

-- A vector collects its values in order, and other keys keep theirs.
pub get_vector-add_to_vector :
    (p : ConfigParser) (key other value : Bytes)
    → get_vector (add_to_vector p key value) other
      ≡ (if same other key then get_vector p key ++ (value ∷ []) else get_vector p other)
unfolding get_vector add_to_vector
get_vector-add_to_vector p key other value =
    ap or_empty (find-put key other (extended (find key p.vectors) value) p.vectors)
    ∙ or_empty-if (same other key) (extended (find key p.vectors) value) (find other p.vectors)
    ∙ ap (λ xs. if same other key then xs else or_empty (find other p.vectors))
        (extended-or_empty (find key p.vectors) value)
