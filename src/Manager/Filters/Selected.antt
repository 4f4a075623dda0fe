-- ===== src/Manager/Filters/Selected.antt =====
-- A writer is given the filters that ask for its endpoint.
use usbproxy.Base.{
  ℕ, zero, suc, ◌+◌, ◌≤◌, ◌<◌, ◌≡◌, refl, sym, ap, ◌∙◌, ◌≢◌, inl, inr, Bool, true, false, ◌&&◌,
  Option, none, some, List, [], ◌∷◌, ◌++◌, append-nil, append_assoc, arith, ◌==◌, if◌then◌else◌,
  ==_iff, Bool-cases, get_elem?, Bytes,
}
use usbproxy.Result.{
  ok-injective, deref-ok, ok, ◌>>=◌, deref, at_index, put_index, bind-ok, Written,
  put_index-Written,
}
use usbproxy.Descriptors.Interface.{Interface}
use usbproxy.Descriptors.Endpoint.{Endpoint}
use usbproxy.Manager.Filters.{
  is_meant, Configuration, give_filters, PluggedIn, Both, Endpoints, Writers, wants, give, give_at,
  give_all,
}

-- One direction.
abbrev pub side {ℓ} : {A : Type ℓ} → Bool → Both A → A
side true b = b.inward
side false b = b.outward

-- The filters that pass a test, in their order.
abbrev pub chosen : (PluggedIn → Bool) → List PluggedIn → List PluggedIn
chosen p [] = []
chosen p (f ∷ fs) = if p f then f ∷ chosen p fs else chosen p fs

give_to :
    (f : PluggedIn) (e : Endpoint × Interface) (ws ws' : Writers) (j : ℕ)
    → wants f e ≡ true
    → give f (some e) ws j ≡ ok ws'
    → (fs : List PluggedIn) × (get_elem? ws j ≡ some (some fs))
      × Written ws j (some (fs ++ (f ∷ []))) ws'
unfolding give
give_to f e ws ws' j w h =
    let h0 : (at_index ws j >>= λ w. deref w >>= λ fs. put_index ws j (some (fs ++ (f ∷ []))))
        ≡ ok ws' =
      rw w at h in
    let (slot, e1, h1) = bind-ok (at_index ws j) _ ws' h0 in
    let (fs, e2, h2) = bind-ok (deref slot) _ ws' h1 in
    (
      fs,
      deref-ok (get_elem? ws j) slot e1 ∙ ap some (deref-ok slot fs e2),
      put_index-Written ws j (some (fs ++ (f ∷ []))) ws' h2,
    )

pub give-elsewhere :
    (f : PluggedIn) (slot : Option (Endpoint × Interface)) (ws ws' : Writers) (i j : ℕ)
    → give f slot ws i ≡ ok ws'
    → i ≢ j
    → get_elem? ws' j ≡ get_elem? ws j
unfolding give
give-elsewhere f none ws ws' i j h n = ap (λ v. get_elem? v j) (sym (ok-injective ws ws' h))
give-elsewhere f (some e) ws ws' i j h n = elim (Bool-cases (wants f e)) [
  | inl asked ↦ let (fs, _, put) = give_to f e ws ws' i asked h in put.elsewhere j n
  | inr other ↦
      let same : ok ws ≡ ok ws' = rw other at h in
      ap (λ v. get_elem? v j) (sym (ok-injective ws ws' same))
]

pub give-here :
    (f : PluggedIn) (e : Endpoint × Interface) (ws ws' : Writers) (j : ℕ) (old : List PluggedIn)
    → give f (some e) ws j ≡ ok ws'
    → get_elem? ws j ≡ some (some old)
    → get_elem? ws' j ≡ some (some (if wants f e then old ++ (f ∷ []) else old))
unfolding give
give-here f e ws ws' j old h o = elim (Bool-cases (wants f e)) [
  | inl asked ↦
      let (fs, found, put) = give_to f e ws ws' j asked h in
      let same : fs ≡ old = cc in rw (asked, sym same) put.here
  | inr other ↦
      let same : ok ws ≡ ok ws' = rw other at h in
      rw other (ap (λ v. get_elem? v j) (sym (ok-injective ws ws' same)) ∙ o)
]

give_at-give :
    (f : PluggedIn) (es : Endpoints) (ws ws' : Writers) (j : ℕ)
    → give_at f es ws j ≡ ok ws'
    → (slot : Option (Endpoint × Interface)) × (get_elem? es j ≡ some slot)
      × (give f slot ws j ≡ ok ws')
unfolding give_at
give_at-give f es ws ws' j h =
    let (slot, e, g) = bind-ok (at_index es j) _ ws' h in
    (slot, deref-ok (get_elem? es j) slot e, g)

-- One round of the inner loop, for a direction.
give_all-round :
    (n i : ℕ) (f : PluggedIn) (es : Both Endpoints) (ws ws' : Both Writers) (b : Bool)
    → give_all (suc n) i f es ws ≡ ok ws'
    → (mid : Both Writers) × (give_at f (side b es) (side b ws) i ≡ ok (side b mid))
      × (give_all n (suc i) f es mid ≡ ok ws')
unfolding give_all
give_all-round n i f es ws ws' true h =
    let (inward, e, h1) = bind-ok (give_at f es.inward ws.inward i) _ ws' h in
    let (outward, _, h2) = bind-ok (give_at f es.outward ws.outward i) _ ws' h1 in
    (record { inward = inward; outward = outward }, e, h2)
give_all-round n i f es ws ws' false h =
    let (inward, _, h1) = bind-ok (give_at f es.inward ws.inward i) _ ws' h in
    let (outward, e, h2) = bind-ok (give_at f es.outward ws.outward i) _ ws' h1 in
    (record { inward = inward; outward = outward }, e, h2)

give_all-outside :
    (n i : ℕ) (f : PluggedIn) (es : Both Endpoints) (ws ws' : Both Writers) (b : Bool) (j : ℕ)
    → give_all n i f es ws ≡ ok ws'
    → j < i
    → get_elem? (side b ws') j ≡ get_elem? (side b ws) j
unfolding give_all
give_all-outside zero i f es ws ws' b j h l =
    ap (λ v. get_elem? (side b v) j) (sym (ok-injective ws ws' h))
give_all-outside (suc n) i f es ws ws' b j h l =
    let (mid, e, rest) = give_all-round n i f es ws ws' b h in
    let (slot, _, g) = give_at-give f (side b es) (side b ws) (side b mid) i e in
    give_all-outside n (suc i) f es mid ws' b j rest (omega arith)
    ∙ give-elsewhere f slot (side b ws) (side b mid) i j g (omega arith)

give_all-inside :
    (n i : ℕ) (f : PluggedIn) (es : Both Endpoints) (ws ws' : Both Writers) (b : Bool) (j : ℕ)
    (e : Endpoint × Interface) (old : List PluggedIn)
    → give_all n i f es ws ≡ ok ws'
    → i ≤ j
    → j < i + n
    → get_elem? (side b es) j ≡ some (some e)
    → get_elem? (side b ws) j ≡ some (some old)
    → get_elem? (side b ws') j ≡ some (some (if wants f e then old ++ (f ∷ []) else old))
give_all-inside zero i f es ws ws' b j e old h l u x o = absurd (omega arith)
give_all-inside (suc n) i f es ws ws' b j e old h l u x o =
    let (mid, round, rest) = give_all-round n i f es ws ws' b h in
    let (slot, y, g) = give_at-give f (side b es) (side b ws) (side b mid) i round in
    elim (Bool-cases (i == j)) [
      | inl same ↦
          let here : i ≡ j = (==_iff i j).0 same in
          let entry : slot ≡ some e = cc in
          let given : give f (some e) (side b ws) j ≡ ok (side b mid) =
            rw (sym entry, sym here) g in
          give_all-outside n (suc i) f es mid ws' b j rest (omega arith)
          ∙ give-here f e (side b ws) (side b mid) j old given o
      | inr other ↦
          give_all-inside n (suc i) f es mid ws' b j e old rest (ground (arith, other, l))
            (omega arith) x
            (give-elsewhere f slot (side b ws) (side b mid) i j g (ground (arith, other)) ∙ o)
    ]

pub behind :
    (old : List PluggedIn) (f : PluggedIn) (rest : List PluggedIn) (w : Bool)
    → (if w then old ++ (f ∷ []) else old) ++ rest ≡ old ++ (if w then f ∷ rest else rest)
behind old f rest true = append_assoc old (f ∷ []) rest
behind old f rest false = refl

-- When every filter has been offered, the writer of an endpoint at an index from 1 to 15 has, behind
-- the filters that it had, the ones that ask for the device, the configuration, the interface and
-- the endpoint, in the order in which they were plugged in; for both directions.
pub give_filters-chosen :
    (d : Bytes) (c : Configuration) (fs : List PluggedIn) (es : Both Endpoints)
    (ws ws' : Both Writers) (b : Bool) (j : ℕ) (e : Endpoint × Interface) (old : List PluggedIn)
    → give_filters d c fs es ws ≡ ok ws'
    → 1 ≤ j
    → j < 16
    → get_elem? (side b es) j ≡ some (some e)
    → get_elem? (side b ws) j ≡ some (some old)
    → get_elem? (side b ws') j ≡ some (some (old ++ chosen (λ f. is_meant d c f && wants f e) fs))
unfolding give_filters
give_filters-chosen d c [] es ws ws' b j e old h l u x o =
    rw (append-nil old) (ap (λ v. get_elem? (side b v) j) (sym (ok-injective ws ws' h)) ∙ o)
give_filters-chosen d c (f ∷ fs) es ws ws' b j e old h l u x o =
    elim (Bool-cases (is_meant d c f)) [
      | inl meant ↦
          let h0 : (give_all 15 1 f es ws >>= λ v. give_filters d c fs es v) ≡ ok ws' =
            rw meant at h in
          let (mid, given, rest) = bind-ok (give_all 15 1 f es ws) _ ws' h0 in
          let now = give_all-inside 15 1 f es ws mid b j e old given l (omega arith) x o in
          let then_ =
            give_filters-chosen d c fs es mid ws' b j e (if wants f e then old ++ (f ∷ []) else old)
              rest l u x now in
          rw meant (
            then_
            ∙ ap (λ v. some (some v))
                (behind old f (chosen (λ g. is_meant d c g && wants g e) fs) (wants f e)))
      | inr other ↦
          let rest : give_filters d c fs es ws ≡ ok ws' = rw other at h in
          rw other (give_filters-chosen d c fs es ws ws' b j e old rest l u x o)
    ]
