-- ===== src/Manager/Filters/Complete.antt =====
-- Every endpoint that has a writer can be given its filters.
use usbproxy.Base.{
  ℕ, zero, suc, ◌+◌, ◌≤◌, ◌<◌, ◌≡◌, refl, sym, inl, inr, Bool, ◌&&◌, Option, none, some, List, [],
  ◌∷◌, ◌++◌, arith, ◌==◌, if◌then◌else◌, lt→ltb, ==_iff, Bool-cases, length, get_elem?, set,
  get_elem?-inside, Bytes,
}
use usbproxy.Result.{ok}
use usbproxy.Descriptors.Interface.{Interface}
use usbproxy.Descriptors.Endpoint.{Endpoint}
use usbproxy.Descriptors.Configuration.{Configuration}
use usbproxy.Manager.Filters.{
  PluggedIn, Both, Endpoints, Writers, wants, give, give_at, give_all, is_meant, give_filters,
}
use usbproxy.Manager.Filters.Selected.{side, chosen, give-elsewhere, give-here, give_filters-chosen}

-- What a table of endpoints and the writers hold at one index.
pub data Served : Option (Endpoint × Interface) → Option (Option (List PluggedIn)) → Type 0 where
  vacant : {w : Option (Option (List PluggedIn))} → Served none w
  served : {e : Endpoint × Interface} (fs : List PluggedIn) → Served (some e) (some (some fs))

-- The tables have 16 entries, and an endpoint has a writer.
unfoldable pub IsServed : Endpoints → Writers → Type 0
IsServed es ws =
    (j : ℕ)
    → j < 16
    → (slot : Option (Endpoint × Interface)) × (get_elem? es j ≡ some slot)
      × Served slot (get_elem? ws j)

give-returns :
    (f : PluggedIn) (slot : Option (Endpoint × Interface)) (ws : Writers) (j : ℕ)
    (w : Option (Option (List PluggedIn)))
    → get_elem? ws j ≡ w
    → Served slot w
    → (ws' : Writers) × (give f slot ws j ≡ ok ws')
unfolding give
give-returns f none ws j w h vacant = (ws, refl)
give-returns f (some e) ws j none h v = elim v [ ]
give-returns f (some e) ws j (some none) h v = elim v [ ]
give-returns f (some e) ws j (some (some _)) h (served fs) = elim (Bool-cases (wants f e)) [
  | inl asked ↦ (
    set ws j (some (fs ++ (f ∷ []))),
    rw (asked, h, lt→ltb j (length ws) (get_elem?-inside ws j (some fs) h)) refl,
  )
  | inr other ↦ (ws, rw other refl)
]

give-Served :
    (f : PluggedIn) (slot : Option (Endpoint × Interface)) (ws ws' : Writers) (j : ℕ)
    (w : Option (Option (List PluggedIn)))
    → give f slot ws j ≡ ok ws'
    → get_elem? ws j ≡ w
    → Served slot w
    → Served slot (get_elem? ws' j)
give-Served f none ws ws' j w g h vacant = vacant
give-Served f (some e) ws ws' j none g h v = elim v [ ]
give-Served f (some e) ws ws' j (some none) g h v = elim v [ ]
give-Served f (some e) ws ws' j (some (some _)) g h (served fs) =
    rw (give-here f e ws ws' j fs g h) (served (if wants f e then fs ++ (f ∷ []) else fs))

give_at-IsServed :
    (f : PluggedIn) (es : Endpoints) (ws : Writers) (i : ℕ)
    → i < 16
    → IsServed es ws
    → (ws' : Writers) × (give_at f es ws i ≡ ok ws') × IsServed es ws'
unfolding give_at IsServed
give_at-IsServed f es ws i l s =
    let (slot, x, v) = s i l in
    let (ws', g) = give-returns f slot ws i (get_elem? ws i) refl v in
    (
      ws',
      rw x g,
      λ j u. elim (Bool-cases (i == j)) [
        | inl same ↦
            let here : i ≡ j = (==_iff i j).0 same in
            rw (sym here) (slot, x, give-Served f slot ws ws' i (get_elem? ws i) g refl v)
        | inr other ↦
            let (slot', y, w) = s j u in
            (slot', y, rw (give-elsewhere f slot ws ws' i j g (ground (arith, other))) w)
      ],
    )

give_all-IsServed :
    (n i : ℕ) (f : PluggedIn) (es : Both Endpoints) (ws : Both Writers)
    → i + n ≤ 16
    → IsServed es.inward ws.inward
    → IsServed es.outward ws.outward
    → (ws' : Both Writers) × (give_all n i f es ws ≡ ok ws')
      × IsServed es.inward ws'.inward
      × IsServed es.outward ws'.outward
unfolding give_all
give_all-IsServed zero i f es ws l s t = (ws, refl, s, t)
give_all-IsServed (suc n) i f es ws l s t =
    let (inward, g, s') = give_at-IsServed f es.inward ws.inward i (omega arith) s in
    let (outward, h, t') = give_at-IsServed f es.outward ws.outward i (omega arith) t in
    let (ws', r, s2, t2) =
      give_all-IsServed n (suc i) f es (record { inward = inward; outward = outward }) (omega arith)
        s' t' in
    (ws', rw (g, h) r, s2, t2)

give_filters-returns :
    (d : Bytes) (c : Configuration) (fs : List PluggedIn) (es : Both Endpoints) (ws : Both Writers)
    → IsServed es.inward ws.inward
    → IsServed es.outward ws.outward
    → (ws' : Both Writers) × (give_filters d c fs es ws ≡ ok ws')
unfolding give_filters
give_filters-returns d c [] es ws s t = (ws, refl)
give_filters-returns d c (f ∷ fs) es ws s t = elim (Bool-cases (is_meant d c f)) [
  | inl meant ↦
      let (mid, g, s', t') = give_all-IsServed 15 1 f es ws (omega arith) s t in
      let (ws', r) = give_filters-returns d c fs es mid s' t' in (ws', rw (meant, g) r)
  | inr other ↦ let (ws', r) = give_filters-returns d c fs es ws s t in (ws', rw other r)
]

-- Where the tables have 16 entries and every endpoint has a writer, all filters can be offered, and
-- the writer of an endpoint at an index from 1 to 15 then has, behind the filters that it had, the
-- ones that ask for the device, the configuration, the interface and the endpoint, in the order in
-- which they were plugged in; for both directions.
pub give_filters-served :
    (d : Bytes) (c : Configuration) (fs : List PluggedIn) (es : Both Endpoints) (ws : Both Writers)
    (b : Bool) (j : ℕ) (e : Endpoint × Interface) (old : List PluggedIn)
    → IsServed es.inward ws.inward
    → IsServed es.outward ws.outward
    → 1 ≤ j
    → j < 16
    → get_elem? (side b es) j ≡ some (some e)
    → get_elem? (side b ws) j ≡ some (some old)
    → (ws' : Both Writers) × (give_filters d c fs es ws ≡ ok ws')
      × (get_elem? (side b ws') j
          ≡ some (some (old ++ chosen (λ f. is_meant d c f && wants f e) fs)))
give_filters-served d c fs es ws b j e old s t l u x o =
    let (ws', r) = give_filters-returns d c fs es ws s t in
    (ws', r, give_filters-chosen d c fs es ws ws' b j e old r l u x o)
