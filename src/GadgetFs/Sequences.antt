-- ===== src/GadgetFs/Sequences.antt =====
-- Plugins/Hosts/HostProxy_GadgetFS.cpp: sequences of transfers.
use usbproxy.Base.{
  ℕ, ◌+◌, ◌<◌, ◌≡◌, refl, ap, ◌∙◌, inl, inr, Bool, true, false, Option, none, some, List, [], ◌∷◌,
  arith, ◌==◌, ==_ne, Bool-cases, get_elem?, set, get_elem?-some, All, Bytes,
}
use usbproxy.Result.{Result, ◌>>=◌, ok}
use Prim.Native.Nat.{bit_and}
use usbproxy.GadgetFs.{set_out, Gadget, Aio}
use usbproxy.GadgetFs.Slots.{Index-below}
use usbproxy.GadgetFs.Active.{IsSound, Keeps, put_index-inside, dropped_out}
use usbproxy.GadgetFs.Transfers.{
  accepted, refused, refused_by_shutdown, finished, in_progress, shutdown, failed, receive_on,
  collect, receive_data, send_wait_complete, wait_on, send_data, settled, AioStatus, Wait, complete,
  Submitted,
}
use usbproxy.GadgetFs.Keeping.{itself, close_outward-Keeps, submit-Keeps, complete-Keeps}

pub wait_on-Keeps :
    (g : Gadget) (i : ℕ) (aio : Aio) (w : Wait)
    → IsSound g
    → i < 16
    → Keeps (λ r. r.0) (wait_on g (i + 0x80) aio w)
unfolding wait_on
wait_on-Keeps g i aio w s l = from_status (settled w)
  where
    from_status :
        (status : Option AioStatus)
        → Keeps
            (λ (r : Gadget × Bool). r.0)
            (elim status [ none ↦ ok (g, false) | some t ↦ complete g (i + 0x80) aio w t ])
    from_status none = ((g, false), refl, s)
    from_status (some t) = complete-Keeps g i aio w t s l

pub send_data-Keeps :
    (g : Gadget) (i : ℕ) (bytes : Bytes) (outcome : Submitted)
    → IsSound g
    → i < 16
    → Keeps itself (send_data g (i + 0x80) bytes outcome)
unfolding send_data
send_data-Keeps g i bytes outcome s l =
    let (slot, h) = get_elem?-some g.in_async i (omega (arith, s.ins)) in from_slot slot h
  where
    from_slot :
        (slot : Option Aio)
        → get_elem? g.in_async i ≡ some slot
        → Keeps itself (send_data g (i + 0x80) bytes outcome)
    from_slot none h =
        let n = Index-below i l in
        let nonzero : (i + 0x80 == 0) ≡ false = ==_ne (i + 0x80) 0 (omega arith) in
        (g, rw (nonzero, n.inward, n.low, h) refl, s)
    from_slot (some aio) h =
        let n = Index-below i l in
        let nonzero : (i + 0x80 == 0) ≡ false = ==_ne (i + 0x80) 0 (omega arith) in
        let (g', r, k) = submit-Keeps g i aio bytes outcome s l in
        (g', rw (nonzero, n.inward, n.low, h) r, k)

send_wait_complete-Keeps :
    (g : Gadget) (i : ℕ) (w : Wait)
    → IsSound g
    → i < 16
    → Keeps (λ r. r.0) (send_wait_complete g (i + 0x80) w)
unfolding send_wait_complete
send_wait_complete-Keeps g i w s l =
    let (slot, h) = get_elem?-some g.in_async i (omega (arith, s.ins)) in
    let (active, a) = get_elem?-some g.in_active i (omega (arith, s.active)) in
    from_slot slot h active a
  where
    from_slot :
        (slot : Option Aio)
        → get_elem? g.in_async i ≡ some slot
        → (active : Bool) → get_elem? g.in_active i ≡ some active
        → Keeps (λ r. r.0) (send_wait_complete g (i + 0x80) w)
    from_slot none h active a =
        let n = Index-below i l in
        let nonzero : (i + 0x80 == 0) ≡ false = ==_ne (i + 0x80) 0 (omega arith) in
        ((g, false), rw (nonzero, n.inward, n.low, h) refl, s)
    from_slot (some aio) h false a =
        let n = Index-below i l in
        let nonzero : (i + 0x80 == 0) ≡ false = ==_ne (i + 0x80) 0 (omega arith) in
        ((g, true), rw (nonzero, n.inward, n.low, h, n.low, a) refl, s)
    from_slot (some aio) h true a =
        let n = Index-below i l in
        let nonzero : (i + 0x80 == 0) ≡ false = ==_ne (i + 0x80) 0 (omega arith) in
        let (g', r, k) = wait_on-Keeps g i aio w s l in
        (g', rw (nonzero, n.inward, n.low, h, n.low, a) r, k)

dropped :
    (g : Gadget) (i : ℕ)
    → IsSound g
    → i < 16
    → set_out g (bit_and i 0xf) none ≡ ok (record g { out_async = set g.out_async i none })
dropped g i s l =
    ap (λ k. set_out g k none) (Index-below i l).plain
    ∙ ap (λ r. r >>= λ slots. ok (record g { out_async = slots }))
        (put_index-inside g.out_async i none (omega (arith, s.outs)))

collect-Keeps :
    (g : Gadget) (i : ℕ) (w : Wait) (bytes : Bytes) (outcome : Submitted)
    → IsSound g
    → i < 16
    → Keeps (λ r. r.0) (collect g i w bytes outcome)
unfolding collect
collect-Keeps g i w bytes outcome s l = elim (Bool-cases w.is_returned) [
  | inl returned ↦ from_outcome outcome returned
  | inr lost ↦ ((g, none), rw lost refl, s)
]
  where
    next : Gadget
    next = record g { out_async = set g.out_async i none }

    from_outcome :
        (outcome : Submitted)
        → w.is_returned ≡ true
        → Keeps (λ r. r.0) (collect g i w bytes outcome)
    from_outcome accepted returned = ((g, some bytes), rw returned refl, s)
    from_outcome refused returned = (
      (next, some bytes),
      rw returned (ap (λ q. q >>= λ h. ok (h, some bytes)) (dropped g i s l)),
      dropped_out g i none s,
    )
    from_outcome refused_by_shutdown returned = (
      (next, some bytes),
      rw returned (ap (λ q. q >>= λ h. ok (h, some bytes)) (dropped g i s l)),
      dropped_out g i none s,
    )

receive_on-Keeps :
    (g : Gadget) (i : ℕ) (w : Wait) (bytes : Bytes) (outcome : Submitted)
    (status : Option AioStatus)
    → IsSound g
    → i < 16
    → Keeps (λ r. r.0) (receive_on g i w bytes outcome status)
unfolding receive_on collect
receive_on-Keeps g i w bytes outcome none s l = ((g, none), refl, s)
receive_on-Keeps g i w bytes outcome (some in_progress) s l = ((g, none), refl, s)
receive_on-Keeps g i w bytes outcome (some failed) s l = ((g, none), refl, s)
receive_on-Keeps g i w bytes outcome (some shutdown) s l =
    let (g', r, k) = close_outward-Keeps g i s l in
    ((g', none), ap (λ q. q >>= λ h. ok (h, none)) r, k)
receive_on-Keeps g i w bytes outcome (some finished) s l = collect-Keeps g i w bytes outcome s l

receive_data-Keeps :
    (g : Gadget) (i : ℕ) (w : Wait) (bytes : Bytes) (outcome : Submitted)
    → IsSound g
    → i < 16
    → Keeps (λ r. r.0) (receive_data g i w bytes outcome)
unfolding receive_data
receive_data-Keeps g i w bytes outcome s l =
    let (slot, h) = get_elem?-some g.out_async i (omega (arith, s.outs)) in
    elim (Bool-cases (i == 0)) [
      | inl control ↦ ((g, none), rw control refl, s)
      | inr data_endpoint ↦ from_slot slot h data_endpoint
    ]
  where
    from_slot :
        (slot : Option Aio)
        → get_elem? g.out_async i ≡ some slot
        → (i == 0) ≡ false
        → Keeps (λ r. r.0) (receive_data g i w bytes outcome)
    from_slot none h data_endpoint =
        let n = Index-below i l in ((g, none), rw (data_endpoint, n.outward, n.plain, h) refl, s)
    from_slot (some aio) h data_endpoint =
        let n = Index-below i l in
        let (g', r, k) = receive_on-Keeps g i w bytes outcome (settled w) s l in
        (g', rw (data_endpoint, n.outward, n.plain, h) r, k)

-- A call of one of the three methods, for the endpoint of its direction with a number below 16.
pub data Transfer : Type 0 where
  sends : ℕ → Bytes → Submitted → Transfer
  waits : ℕ → Wait → Transfer
  receives : ℕ → Wait → Bytes → Submitted → Transfer

abbrev pub IsNumbered : Transfer → Type 0
IsNumbered (sends i bytes outcome) = i < 16
IsNumbered (waits i w) = i < 16
IsNumbered (receives i w bytes outcome) = i < 16

abbrev pub step : Gadget → Transfer → Result Gadget
step g (sends i bytes outcome) = send_data g (i + 0x80) bytes outcome
step g (waits i w) = send_wait_complete g (i + 0x80) w >>= λ r. ok r.0
step g (receives i w bytes outcome) = receive_data g i w bytes outcome >>= λ r. ok r.0

abbrev pub run : Gadget → List Transfer → Result Gadget
run g [] = ok g
run g (t ∷ ts) = step g t >>= λ g'. run g' ts

step-IsSound : (g : Gadget) (t : Transfer) → IsSound g → IsNumbered t → Keeps itself (step g t)
step-IsSound g (sends i bytes outcome) s l = send_data-Keeps g i bytes outcome s l
step-IsSound g (waits i w) s l =
    let (r, e, k) = send_wait_complete-Keeps g i w s l in (r.0, rw e refl, k)
step-IsSound g (receives i w bytes outcome) s l =
    let (r, e, k) = receive_data-Keeps g i w bytes outcome s l in (r.0, rw e refl, k)

-- In a state whose arrays have 16 entries and in which each endpoint with an active transfer is
-- open, any sequence of sends, waits and receives for numbered endpoints, whatever the system
-- answers, ends without a fault in such a state.
pub run-IsSound :
    (g : Gadget) (ts : List Transfer)
    → IsSound g
    → All IsNumbered ts
    → (g' : Gadget) × (run g ts ≡ ok g') × IsSound g'
run-IsSound g [] s ns = (g, refl, s)
run-IsSound g (t ∷ ts) s (n, ns) =
    let (g1, e, s1) = step-IsSound g t s n in
    let (g', r, k) = run-IsSound g1 ts s1 ns in (g', ap (λ q. q >>= λ h. run h ts) e ∙ r, k)
