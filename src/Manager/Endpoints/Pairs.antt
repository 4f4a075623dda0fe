-- ===== src/Manager/Endpoints/Pairs.antt =====
-- The relays of a fresh manager.
use usbproxy.Base.{
  ℕ, zero, suc, ◌+◌, ◌≤◌, ◌<◌, ◌≡◌, refl, sym, ap, subst, ◌∙◌, ◌≢◌, inl, inr, Option, none, some,
  List, arith, ◌==◌, ==_iff, Bool-cases, get_elem?, get_elem?-replicate,
}
use usbproxy.Result.{ok, deref, at_index, put_index, bind-ok, put_index-Written}
use usbproxy.Descriptors.Endpoint.{byte, Endpoint}
use usbproxy.Manager.Endpoints.{
  add_interfaces, Configuration, init, make_relays, start_data_relaying, Tables, Side, make_relay,
  pair_at, make_pair,
}
use usbproxy.Manager.Endpoints.Placing.{
  add_interfaces-AreFresh, AreFresh, vacant, taken, IsFresh, ok-same,
}

-- An index whose relays are made: a reader and a writer that share the queue of the endpoint.
pub data Paired (s : Side) (i : ℕ) : Type 0 where
  unused :
      get_elem? s.endpoints i ≡ some none
      → get_elem? s.readers i ≡ some none
      → get_elem? s.writers i ≡ some none
      → Paired s i
  used :
      (e : Endpoint) (q : ℕ)
      → get_elem? s.endpoints i ≡ some (some e)
      → get_elem? s.queues i ≡ some (some q)
      → get_elem? s.readers i ≡ some (some q)
      → get_elem? s.writers i ≡ some (some q)
      → Paired s i

-- What making the relays of one index leaves as it was.
record Keeps (s : Side) (i : ℕ) (s' : Side) : Type 0 where
  endpoints : s'.endpoints ≡ s.endpoints
  queues : s'.queues ≡ s.queues
  readers : (j : ℕ) → i ≢ j → get_elem? s'.readers j ≡ get_elem? s.readers j
  writers : (j : ℕ) → i ≢ j → get_elem? s'.writers j ≡ get_elem? s.writers j

make_relay-elsewhere :
    (relays : List (Option ℕ)) (i : ℕ) (r : Option ℕ) (queue : ℕ) (made : List (Option ℕ)) (j : ℕ)
    → make_relay relays i r queue ≡ ok made
    → i ≢ j
    → get_elem? made j ≡ get_elem? relays j
unfolding make_relay
make_relay-elsewhere relays i none queue made j e n =
    (put_index-Written relays i (some queue) made e).elsewhere j n
make_relay-elsewhere relays i (some old) queue made j e n =
    ap (λ xs. get_elem? xs j) (sym (ok-same relays made e))

pair_at-Keeps :
    (s : Side) (i : ℕ) (e : Option Endpoint) (r w q : Option ℕ) (s' : Side)
    → pair_at s i e r w q ≡ ok s'
    → Keeps s i s'
unfolding pair_at
pair_at-Keeps s i none r w q s' made =
    subst (λ u. Keeps s i u) (ok-same s s' made)
      (record { endpoints = refl; queues = refl; readers = λ j n. refl; writers = λ j n. refl })
pair_at-Keeps s i (some e) r w q s' made =
    let (queue, m1, r1) = bind-ok (deref q) _ s' made in
    let (rs, m2, r2) = bind-ok (make_relay s.readers i r queue) _ s' r1 in
    let (ws, m3, r3) = bind-ok (make_relay s.writers i w queue) _ s' r2 in
    subst (λ u. Keeps s i u) (ok-same _ s' r3)
      (record {
        endpoints = refl;
        queues = refl;
        readers = λ j n. make_relay-elsewhere s.readers i r queue rs j m2 n;
        writers = λ j n. make_relay-elsewhere s.writers i w queue ws j m3 n;
      })

make_pair-Keeps : (s s' : Side) (i : ℕ) → make_pair s i ≡ ok s' → Keeps s i s'
unfolding make_pair
make_pair-Keeps s s' i made =
    let (e, m1, r1) = bind-ok (at_index s.endpoints i) _ s' made in
    let (r, m2, r2) = bind-ok (at_index s.readers i) _ s' r1 in
    let (w, m3, r3) = bind-ok (at_index s.writers i) _ s' r2 in
    let (q, m4, r4) = bind-ok (at_index s.queues i) _ s' r3 in pair_at-Keeps s i e r w q s' r4

-- Making the relays of one index, where none are made yet.
make_pair-Paired : (s s' : Side) (i : ℕ) → make_pair s i ≡ ok s' → IsFresh s i → Paired s' i
unfolding make_pair pair_at make_relay
make_pair-Paired s s' i made v = elim v.placed [
  | vacant p ↦
      let (q, m, r) = bind-ok (at_index s.queues i) _ s' (rw (p, v.unread, v.unwritten) at made) in
      subst (λ u. Paired u i) (ok-same s s' r) (unused p v.unread v.unwritten)
  | taken e q p pq ↦
      let made' = rw (p, v.unread, v.unwritten, pq) at made in
      let (rs, m1, r1) = bind-ok (put_index s.readers i (some q)) _ s' made' in
      let (ws, m2, r2) = bind-ok (put_index s.writers i (some q)) _ s' r1 in
      let wr = put_index-Written s.readers i (some q) rs m1 in
      let ww = put_index-Written s.writers i (some q) ws m2 in
      subst (λ u. Paired u i) (ok-same _ s' r2) (used e q p pq wr.here ww.here)
]

IsFresh-elsewhere : (s s' : Side) (i j : ℕ) → Keeps s i s' → i ≢ j → IsFresh s j → IsFresh s' j
IsFresh-elsewhere s s' i j k n v = record {
  placed = elim v.placed [
    | vacant p ↦ vacant (ap (λ es. get_elem? es j) k.endpoints ∙ p)
    | taken e q p pq ↦
        taken e q (ap (λ es. get_elem? es j) k.endpoints ∙ p)
          (ap (λ qs. get_elem? qs j) k.queues ∙ pq)
  ];
  unread = k.readers j n ∙ v.unread;
  unwritten = k.writers j n ∙ v.unwritten;
}

Paired-elsewhere : (s s' : Side) (i j : ℕ) → Keeps s i s' → i ≢ j → Paired s j → Paired s' j
Paired-elsewhere s s' i j k n (unused p r w) =
    unused (ap (λ es. get_elem? es j) k.endpoints ∙ p) (k.readers j n ∙ r) (k.writers j n ∙ w)
Paired-elsewhere s s' i j k n (used e q p pq r w) =
    used e q (ap (λ es. get_elem? es j) k.endpoints ∙ p) (ap (λ qs. get_elem? qs j) k.queues ∙ pq)
      (k.readers j n ∙ r) (k.writers j n ∙ w)

-- The relays of both directions are made at this index.
abbrev pub ArePaired : Tables → ℕ → Type 0
ArePaired t j = Paired t.inward j × Paired t.outward j

-- An index that the loop has passed stays as it is.
make_relays-passed :
    (n i : ℕ) (t t' : Tables) (j : ℕ)
    → make_relays n i t ≡ ok t'
    → j < i
    → ArePaired t j
    → ArePaired t' j
unfolding make_relays
make_relays-passed zero i t t' j made h v = subst (λ u. ArePaired u j) (ok-same t t' made) v
make_relays-passed (suc n) i t t' j made h v =
    let (inward, m1, r1) = bind-ok (make_pair t.inward i) _ t' made in
    let (outward, m2, r2) = bind-ok (make_pair t.outward i) _ t' r1 in
    let other : i ≢ j = λ e. omega arith in
    make_relays-passed n (suc i) (record t { inward = inward; outward = outward }) t' j r2
      (omega arith)
      (
        Paired-elsewhere t.inward inward i j (make_pair-Keeps t.inward inward i m1) other v.0,
        Paired-elsewhere t.outward outward i j (make_pair-Keeps t.outward outward i m2) other v.1,
      )

make_relays-ArePaired :
    (n i : ℕ) (t t' : Tables) (j : ℕ)
    → make_relays n i t ≡ ok t'
    → i ≤ j
    → j < i + n
    → AreFresh t j
    → ArePaired t' j
unfolding make_relays
make_relays-ArePaired zero i t t' j made h k v = absurd (omega arith)
make_relays-ArePaired (suc n) i t t' j made h k v =
    let (inward, m1, r1) = bind-ok (make_pair t.inward i) _ t' made in
    let (outward, m2, r2) = bind-ok (make_pair t.outward i) _ t' r1 in
    let t1 : Tables = record t { inward = inward; outward = outward } in
    elim (Bool-cases (i == j)) [
      | inl same ↦
          let i_j : i ≡ j = (==_iff i j).0 same in
          make_relays-passed n (suc i) t1 t' j r2 (omega arith) (
            subst (λ l. Paired inward l) i_j
                (make_pair-Paired t.inward inward i m1
                  (subst (λ l. IsFresh t.inward l) (sym i_j) v.0)),
            subst (λ l. Paired outward l) i_j
                (make_pair-Paired t.outward outward i m2
                  (subst (λ l. IsFresh t.outward l) (sym i_j) v.1)),
          )
      | inr other ↦
          let i_ne_j : i ≢ j = λ e. ground arith in
          let later : suc i ≤ j = ground arith in
          make_relays-ArePaired n (suc i) t1 t' j r2 later (omega arith) (
            IsFresh-elsewhere t.inward inward i j (make_pair-Keeps t.inward inward i m1) i_ne_j v.0,
            IsFresh-elsewhere t.outward outward i j (make_pair-Keeps t.outward outward i m2) i_ne_j
                v.1,
          )
    ]

init-AreFresh : (j : ℕ) → j < 16 → AreFresh init j
init-AreFresh j h =
    let fresh : IsFresh init.inward j = record {
      placed = vacant (get_elem?-replicate 16 j none h);
      unread = get_elem?-replicate 16 j none h;
      unwritten = get_elem?-replicate 16 j none h;
    } in
    (fresh, fresh)

-- When a manager that has no relays yet starts the data endpoints, an index from 1 to 15 and a
-- direction have either no endpoint and no relays, or an endpoint with a reader and a writer that
-- share its queue.
pub start_data_relaying-ArePaired :
    (c : Configuration) (t : Tables) (j : ℕ)
    → start_data_relaying c init ≡ ok t
    → 1 ≤ j
    → j < 16
    → ArePaired t j
unfolding start_data_relaying
start_data_relaying-ArePaired c t j made h k =
    let (placed, m, r) = bind-ok (add_interfaces (byte c.descriptor 4) 0 c init) _ t made in
    make_relays-ArePaired 15 1 placed t j r h (omega arith)
      (add_interfaces-AreFresh (byte c.descriptor 4) 0 c init placed j m (init-AreFresh j k))
