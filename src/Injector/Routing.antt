-- ===== src/Injector/Routing.antt =====
-- An injector's packets go to the queue of their endpoint.
use usbproxy.Base.{
  ℕ, ◌%◌, ◌<◌, ◌≡◌, refl, ap, ◌∙◌, ◌≢◌, inl, inr, Bool, true, false, ◌&&◌, not, Option, some, List,
  arith, ◌==◌, if◌then◌else◌, lt→ltb, ==_iff, Bool-cases, length, set, length-set,
  get_elem?-set_self, get_elem?-set_ne, has,
}
use usbproxy.Packet.{Packet}
use usbproxy.Result.{deref, ok, ◌>>=◌, at_index, put_index}
use usbproxy.Injector.{sent_to, Routes, set_queue, injects, enqueued, deliver}

-- Arrays of sixteen entries.
pub record IsValid (r : Routes) : Type 0 where
  pub outward : length r.out_queues ≡ 16
  pub inward : length r.in_queues ≡ 16

put_index-fits :
    (qs : List (Option ℕ)) (i : ℕ) (q : Option ℕ)
    → i < length qs
    → put_index qs i q ≡ ok (set qs i q)
put_index-fits qs i q h = rw (lt→ltb i (length qs) h)

set-route :
    (qs : List (Option ℕ)) (i j queue : ℕ)
    → i < length qs
    → (at_index (set qs i (some queue)) j >>= λ q. ok (sent_to q))
      ≡ (if j == i then ok (enqueued queue) else (at_index qs j >>= λ q. ok (sent_to q)))
set-route qs i j queue h = elim (Bool-cases (j == i)) [
  | inl same ↦
      let j_i : j ≡ i = (==_iff j i).0 same in
      rw same (
        ap (λ k. at_index (set qs i (some queue)) k >>= λ q. ok (sent_to q)) j_i
        ∙ ap (λ o. deref o >>= λ q. ok (sent_to q)) (get_elem?-set_self qs i (some queue) h))
  | inr other ↦
      let i_ne_j : i ≢ j = λ e. ground arith in
      rw other
        (ap (λ o. deref o >>= λ q. ok (sent_to q)) (get_elem?-set_ne qs i j (some queue) i_ne_j))
]

if-and_true :
    {A : Type 0} (b : Bool) (x y : A) → (if b then x else y) ≡ (if b && true then x else y)
if-and_true true x y = refl
if-and_true false x y = refl

if-and_false : {A : Type 0} (b : Bool) (x y : A) → y ≡ (if b && false then x else y)
if-and_false true x y = refl
if-and_false false x y = refl

-- Once an address has been given a queue, the packets of that endpoint and direction go to it, and
-- those of any other endpoint or direction where they went before.
pub deliver-set_queue :
    (r : Routes) (address queue : ℕ) (p : Packet)
    → IsValid r
    → (r' : Routes) × (set_queue r address queue ≡ ok r')
      × IsValid r'
      × (deliver r' (injects p) ≡ (
          if (p.endpoint % 16 == address % 16)
            && (if has p.endpoint 0x80 then has address 0x80 else not (has address 0x80))
          then ok (enqueued queue)
          else deliver r (injects p)))
unfolding set_queue deliver
deliver-set_queue r address queue p v =
    let i = address % 16 in
    let j = p.endpoint % 16 in
    let small : i < 16 = omega arith in
    elim (Bool-cases (has address 0x80)) [
      | inl inward ↦
          let qs = set r.in_queues i (some queue) in
          (
            record r { in_queues = qs },
            rw (inward, put_index-fits r.in_queues i (some queue) (omega (arith, v.inward))) refl,
            record {
              outward = v.outward;
              inward = length-set r.in_queues i (some queue) ∙ v.inward;
            },
            elim (Bool-cases (has p.endpoint 0x80)) [
              | inl same ↦
                  rw (same, inward)
                    (set-route r.in_queues i j queue (omega (arith, v.inward))
                      ∙ if-and_true (j == i) (ok (enqueued queue)) _)
              | inr other ↦ rw (other, inward) (if-and_false (j == i) (ok (enqueued queue)) _)
            ],
          )
      | inr outward ↦
          let qs = set r.out_queues i (some queue) in
          (
            record r { out_queues = qs },
            rw (outward, put_index-fits r.out_queues i (some queue) (omega (arith, v.outward)))
                refl,
            record {
              outward = length-set r.out_queues i (some queue) ∙ v.outward;
              inward = v.inward;
            },
            elim (Bool-cases (has p.endpoint 0x80)) [
              | inl other ↦ rw (other, outward) (if-and_false (j == i) (ok (enqueued queue)) _)
              | inr same ↦
                  rw (same, outward)
                    (set-route r.out_queues i j queue (omega (arith, v.outward))
                      ∙ if-and_true (j == i) (ok (enqueued queue)) _)
            ],
          )
    ]
