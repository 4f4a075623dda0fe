-- ===== src/Manager/Injectors/Routed.antt =====
-- An injector is given the queues of the endpoints that it asks for.
use usbproxy.Manager.Injectors.Offered.{routes, AreReady, wanted, Offered, offer_at-Offered}
use usbproxy.Manager.Filters.Selected.{side}
use usbproxy.Base.{
  ℕ, zero, suc, ◌+◌, ◌≤◌, ◌<◌, ◌≡◌, refl, sym, ap, ◌∙◌, ◌≢◌, inl, inr, Bool, true, false, ◌&&◌,
  Option, none, some, arith, ◌==◌, ==_iff, Bool-cases, length, get_elem?, Bytes,
}
use usbproxy.Result.{ok}
use usbproxy.Descriptors.Endpoint.{Endpoint}
use usbproxy.Descriptors.Interface.{Interface}
use usbproxy.Injector.{Routes}
use usbproxy.Manager.Filters.{is_meant, Both, PluggedIn, Endpoints, wants}
use usbproxy.Manager.Injectors.{Configuration, assign, offer_all, Queues}

-- What rounds of the inner loop have changed, from index `i` on, for `n` of them.
record Covered (i n : ℕ) (p : Endpoint × Interface → Bool) (es : Both Endpoints) (qs : Both Queues)
    (r r' : Routes) : Type 0 where
  within :
      (b : Bool) (k : ℕ)
      → i ≤ k
      → k < i + n
      → get_elem? (routes b r') k
        ≡ wanted p (get_elem? (side b es) k) (get_elem? (side b qs) k) (get_elem? (routes b r) k)
  outside : (b : Bool) (k : ℕ) → k < i → get_elem? (routes b r') k ≡ get_elem? (routes b r) k

-- Both calls of one round.
record Round (i : ℕ) (p : Endpoint × Interface → Bool) (es : Both Endpoints) (qs : Both Queues)
    (r r' : Routes) : Type 0 where
  here :
      (b : Bool)
      → get_elem? (routes b r') i
        ≡ wanted p (get_elem? (side b es) i) (get_elem? (side b qs) i) (get_elem? (routes b r) i)
  elsewhere : (b : Bool) (k : ℕ) → i ≢ k → get_elem? (routes b r') k ≡ get_elem? (routes b r) k
  sized : (b : Bool) → length (routes b r') ≡ length (routes b r)

abbrev pub IsSized : Routes → Type 0
IsSized r = (b : Bool) → length (routes b r) ≡ 16

joined-Round :
    (i : ℕ) (p : Endpoint × Interface → Bool) (es : Both Endpoints) (qs : Both Queues)
    (r r1 r2 : Routes)
    → Offered true i
        (wanted p (get_elem? es.inward i) (get_elem? qs.inward i) (get_elem? r.in_queues i))
        r
        r1
    → Offered false i
        (wanted p (get_elem? es.outward i) (get_elem? qs.outward i) (get_elem? r1.out_queues i))
        r1
        r2
    → Round i p es qs r r2
joined-Round i p es qs r r1 r2 o1 o2 = record {
  here = here_at;
  elsewhere = elsewhere_at;
  sized = sized_at;
}
  where
    here_at :
        (b : Bool)
        → get_elem? (routes b r2) i
          ≡ wanted p (get_elem? (side b es) i) (get_elem? (side b qs) i) (get_elem? (routes b r) i)
    here_at true = ap (λ xs. get_elem? xs i) o2.across ∙ o1.here
    here_at false =
        o2.here
        ∙ ap (λ xs. wanted p (get_elem? es.outward i) (get_elem? qs.outward i) (get_elem? xs i))
            o1.across

    elsewhere_at : (b : Bool) (k : ℕ) → i ≢ k → get_elem? (routes b r2) k ≡ get_elem? (routes b r) k
    elsewhere_at true k n = ap (λ xs. get_elem? xs k) o2.across ∙ o1.elsewhere k n
    elsewhere_at false k n = o2.elsewhere k n ∙ ap (λ xs. get_elem? xs k) o1.across

    sized_at : (b : Bool) → length (routes b r2) ≡ length (routes b r)
    sized_at true = ap length o2.across ∙ o1.sized
    sized_at false = o2.sized ∙ ap length o1.across

offer_all-Covered :
    (n i : ℕ) (f : PluggedIn) (es : Both Endpoints) (qs : Both Queues) (r : Routes)
    → i + n ≤ 16
    → AreReady es.inward qs.inward
    → AreReady es.outward qs.outward
    → IsSized r
    → (r' : Routes) × (offer_all n i f es qs r ≡ ok r') × Covered i n (wants f) es qs r r'
unfolding offer_all
offer_all-Covered zero i f es qs r l a c s =
    (r, refl, record { within = λ b k h u. absurd (omega arith); outside = λ b k h. refl })
offer_all-Covered (suc n) i f es qs r l a c s =
    let (r1, g1, o1) = offer_at-Offered true f es.inward qs.inward i r a (omega arith) (s true) in
    let (r2, g2, o2) =
      offer_at-Offered false f es.outward qs.outward i r1 c (omega arith)
        (ap length o1.across ∙ s false) in
    let both_ways = joined-Round i (wants f) es qs r r1 r2 o1 o2 in
    let (r', g, v) =
      offer_all-Covered n (suc i) f es qs r2 (omega arith) a c (λ b. both_ways.sized b ∙ s b) in
    (
      r',
      rw (g1, g2) g,
      record {
        within = λ b k h u. elim (Bool-cases (i == k)) [
          | inl same ↦
              let at_k : i ≡ k = (==_iff i k).0 same in
              rw (sym at_k) (v.outside b i (omega arith) ∙ both_ways.here b)
          | inr other ↦
              let apart : i ≢ k = ground (arith, other) in
              v.within b k (omega arith) (omega arith)
              ∙ ap (wanted (wants f) (get_elem? (side b es) k) (get_elem? (side b qs) k))
                  (both_ways.elsewhere b k apart)
        ];
        outside = λ b k h. v.outside b k (omega arith) ∙ both_ways.elsewhere b k (omega arith);
      },
    )

wanted_never :
    (slot : Option (Option (Endpoint × Interface))) (queue old : Option (Option ℕ))
    → wanted (λ e. false) slot queue old ≡ old
wanted_never none queue old = refl
wanted_never (some none) queue old = refl
wanted_never (some (some e)) queue old = refl

-- Where the tables have 16 entries and the writer of every endpoint has a queue, an injector can be
-- given all its queues, and at each index from 1 to 15, in either direction, it then has the queue
-- of the writer of the endpoint there, if there is one and the injector asks for the device, the
-- configuration, the interface and the endpoint, and otherwise what it had before.
pub assign-wanted :
    (d : Bytes) (c : Configuration) (f : PluggedIn) (es : Both Endpoints) (qs : Both Queues)
    (r : Routes)
    → AreReady es.inward qs.inward
    → AreReady es.outward qs.outward
    → IsSized r
    → (r' : Routes) × (assign d c f es qs r ≡ ok r')
      × ((b : Bool) (k : ℕ)
          → 1 ≤ k
          → k < 16
          → get_elem? (routes b r') k
            ≡ wanted
                (λ e. is_meant d c f && wants f e)
                (get_elem? (side b es) k)
                (get_elem? (side b qs) k)
                (get_elem? (routes b r) k))
unfolding assign
assign-wanted d c f es qs r a o s = elim (Bool-cases (is_meant d c f)) [
  | inl meant ↦
      let (r', g, v) = offer_all-Covered 15 1 f es qs r (omega arith) a o s in
      (r', rw meant g, λ b k l u. rw meant (v.within b k l (omega arith)))
  | inr other ↦ (
    r,
    rw other refl,
    λ b k l u. rw other (
        sym (
          wanted_never (get_elem? (side b es) k) (get_elem? (side b qs) k)
            (get_elem? (routes b r) k))),
  )
]
