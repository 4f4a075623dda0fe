-- ===== src/Manager/Endpoints/Placing.antt =====
-- The endpoints that are put into the tables of a fresh manager.
use usbproxy.Base.{
  ℕ, zero, suc, ◌%◌, ◌≡◌, subst, ◌∙◌, ◌≢◌, inl, inr, Bool, true, false, none, some, arith, ◌==◌,
  if◌then◌else◌, ==_iff, Bool-cases, get_elem?, has,
}
use usbproxy.Result.{ok, put_index, bind-ok, put_index-Written}
use usbproxy.Descriptors.Endpoint.{byte, endpoint_address, Endpoint}
use usbproxy.Manager.Endpoints.{
  num_endpoints, deref, get_interface_alternate, get_interface_alternate_count, get_endpoint_by_idx,
  is_isochronous, Configuration, Interface, Tables, add_interfaces, add_endpoint, add_endpoints,
  add_alternates, Side, place,
}

-- An index with an endpoint and a queue, or with no endpoint.
pub data Placed (s : Side) (i : ℕ) : Type 0 where
  vacant : get_elem? s.endpoints i ≡ some none → Placed s i
  taken :
      (e : Endpoint) (q : ℕ)
      → get_elem? s.endpoints i ≡ some (some e)
      → get_elem? s.queues i ≡ some (some q)
      → Placed s i

-- An index that has no relays yet.
pub record IsFresh (s : Side) (i : ℕ) : Type 0 where
  pub placed : Placed s i
  pub unread : get_elem? s.readers i ≡ some none
  pub unwritten : get_elem? s.writers i ≡ some none

pub ok-same {ℓ} : {A : Type ℓ} (a b : A) → ok a ≡ ok b → a ≡ b
ok-same a b e = cc

place-IsFresh :
    (s : Side) (i : ℕ) (e : Endpoint) (queue : ℕ) (s' : Side) (j : ℕ)
    → place s i e queue ≡ ok s'
    → IsFresh s j
    → IsFresh s' j
unfolding place
place-IsFresh s i e queue s' j made v =
    let (es, pe, made1) = bind-ok (put_index s.endpoints i (some e)) _ s' made in
    let (qs, pq, made2) = bind-ok (put_index s.queues i (some queue)) _ s' made1 in
    let we = put_index-Written s.endpoints i (some e) es pe in
    let wq = put_index-Written s.queues i (some queue) qs pq in
    let t : Side = record s { endpoints = es; queues = qs } in
    let fresh : IsFresh t j = elim (Bool-cases (i == j)) [
      | inl same ↦
          let i_j : i ≡ j = (==_iff i j).0 same in
          record {
            placed =
                taken e queue (subst (λ k. get_elem? es k ≡ some (some e)) i_j we.here)
                  (subst (λ k. get_elem? qs k ≡ some (some queue)) i_j wq.here);
            unread = v.unread;
            unwritten = v.unwritten;
          }
      | inr other ↦
          let i_ne_j : i ≢ j = λ k. ground arith in
          record {
            placed = elim v.placed [
              | vacant p ↦ vacant (we.elsewhere j i_ne_j ∙ p)
              | taken e' q' p p' ↦
                  taken e' q' (we.elsewhere j i_ne_j ∙ p) (wq.elsewhere j i_ne_j ∙ p')
            ];
            unread = v.unread;
            unwritten = v.unwritten;
          }
    ] in
    subst (λ u. IsFresh u j) (ok-same t s' made2) fresh

placed_if :
    (b : Bool) (s : Side) (i : ℕ) (e : Endpoint) (queue : ℕ) (s' : Side) (j : ℕ)
    → (if b then place s i e queue else ok s) ≡ ok s'
    → IsFresh s j
    → IsFresh s' j
placed_if true s i e queue s' j made v = place-IsFresh s i e queue s' j made v
placed_if false s i e queue s' j made v = subst (λ u. IsFresh u j) (ok-same s s' made) v

placed_unless :
    (b : Bool) (s : Side) (i : ℕ) (e : Endpoint) (queue : ℕ) (s' : Side) (j : ℕ)
    → (if b then ok s else place s i e queue) ≡ ok s'
    → IsFresh s j
    → IsFresh s' j
placed_unless true s i e queue s' j made v = subst (λ u. IsFresh u j) (ok-same s s' made) v
placed_unless false s i e queue s' j made v = place-IsFresh s i e queue s' j made v

-- No relay is made yet at this index, in either direction.
abbrev pub AreFresh : Tables → ℕ → Type 0
AreFresh t j = IsFresh t.inward j × IsFresh t.outward j

add_endpoint-AreFresh :
    (t : Tables) (i : Interface) (e : Endpoint) (t' : Tables) (j : ℕ)
    → add_endpoint t i e ≡ ok t'
    → AreFresh t j
    → AreFresh t' j
unfolding add_endpoint endpoint_address
add_endpoint-AreFresh t i e t' j made v = elim (Bool-cases (is_isochronous e)) [
  | inl skipped ↦ subst (λ u. AreFresh u j) (ok-same t t' (rw skipped at made)) v
  | inr kept ↦
      let address = byte e.descriptor 2 in
      let inside = has address 0x80 in
      let (inward, m1, r1) =
        bind-ok (if inside then place t.inward (address % 16) e t.next_queue else ok t.inward) _ t'
          (rw kept at made) in
      let (outward, m2, r2) =
        bind-ok (if inside then ok t.outward else place t.outward (address % 16) e t.next_queue) _
          t' r1 in
      subst (λ u. AreFresh u j) (ok-same _ t' r2)
        (
          placed_if inside t.inward (address % 16) e t.next_queue inward j m1 v.0,
          placed_unless inside t.outward (address % 16) e t.next_queue outward j m2 v.1,
        )
]

add_endpoints-AreFresh :
    (n idx : ℕ) (i : Interface) (t t' : Tables) (j : ℕ)
    → add_endpoints n idx i t ≡ ok t'
    → AreFresh t j
    → AreFresh t' j
unfolding add_endpoints
add_endpoints-AreFresh zero idx i t t' j made v = subst (λ u. AreFresh u j) (ok-same t t' made) v
add_endpoints-AreFresh (suc n) idx i t t' j made v =
    let (slot, m1, r1) = bind-ok (get_endpoint_by_idx i idx) _ t' made in
    let (e, m2, r2) = bind-ok (deref slot) _ t' r1 in
    let (t1, m3, r3) = bind-ok (add_endpoint t i e) _ t' r2 in
    add_endpoints-AreFresh n (suc idx) i t1 t' j r3 (add_endpoint-AreFresh t i e t1 j m3 v)

add_alternates-AreFresh :
    (n number idx : ℕ) (c : Configuration) (t t' : Tables) (j : ℕ)
    → add_alternates n number idx c t ≡ ok t'
    → AreFresh t j
    → AreFresh t' j
unfolding add_alternates
add_alternates-AreFresh zero number idx c t t' j made v =
    subst (λ u. AreFresh u j) (ok-same t t' made) v
add_alternates-AreFresh (suc n) number idx c t t' j made v =
    let (slot, m1, r1) = bind-ok (get_interface_alternate c number idx) _ t' made in
    let (i, m2, r2) = bind-ok (deref slot) _ t' r1 in
    let (t1, m3, r3) = bind-ok (add_endpoints (num_endpoints i) 0 i t) _ t' r2 in
    add_alternates-AreFresh n number (suc idx) c t1 t' j r3
      (add_endpoints-AreFresh (num_endpoints i) 0 i t t1 j m3 v)

pub add_interfaces-AreFresh :
    (n number : ℕ) (c : Configuration) (t t' : Tables) (j : ℕ)
    → add_interfaces n number c t ≡ ok t'
    → AreFresh t j
    → AreFresh t' j
unfolding add_interfaces
add_interfaces-AreFresh zero number c t t' j made v =
    subst (λ u. AreFresh u j) (ok-same t t' made) v
add_interfaces-AreFresh (suc n) number c t t' j made v =
    let (count, m1, r1) = bind-ok (get_interface_alternate_count c number) _ t' made in
    let (t1, m2, r2) = bind-ok (add_alternates count number 0 c t) _ t' r1 in
    add_interfaces-AreFresh n (suc number) c t1 t' j r2
      (add_alternates-AreFresh count number 0 c t t1 j m2 v)
