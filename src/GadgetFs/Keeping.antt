-- ===== src/GadgetFs/Keeping.antt =====
-- Plugins/Hosts/HostProxy_GadgetFS.cpp: every transfer keeps the state sound.
use usbproxy.Base.{
  ℕ, ◌+◌, ◌<◌, ◌≡◌, refl, sym, ap, ◌∙◌, inl, inr, Bool, true, false, Option, none, some, List, [],
  ◌∷◌, arith, ◌==◌, if◌then◌else◌, Bool-cases, length, get_elem?, set, get_elem?-set_self,
  get_elem?-some, Bytes,
}
use usbproxy.Result.{Result, ◌>>=◌, ok, fault, exits, spins}
use Prim.Native.Nat.{bit_and}
use usbproxy.GadgetFs.{
  set_in, set_active, Gadget, Aio, Call, cancel, close, log, cancel_aio, close_slot, close_ep,
}
use usbproxy.GadgetFs.Slots.{Index-below}
use usbproxy.GadgetFs.Active.{
  silenced_at, IsSound, Keeps, put_index-inside, opened_in, started_at, closed_at, dropped_out,
  logged,
}
use usbproxy.GadgetFs.Transfers.{
  in_progress, finished, shutdown, failed, AioStatus, Wait, complete, Submitted, accepted,
  refused_by_shutdown, refused, submit,
}

logged_if :
    (b : Bool) (g : Gadget) (cs : List Call) → IsSound g → IsSound (if b then g else log g cs)
logged_if true g cs s = s
logged_if false g cs s = logged g cs s

abbrev pub itself : Gadget → Gadget
itself g = g

pub close_inward-Keeps :
    (g : Gadget) (i : ℕ) → IsSound g → i < 16 → Keeps itself (close_ep g (i + 0x80))
unfolding close_ep close_slot cancel_aio
close_inward-Keeps g i s l =
    let n = Index-below i l in
    let (slot, h) = get_elem?-some g.in_async i (omega (arith, s.ins)) in from_slot slot h
  where
    from_slot :
        (slot : Option Aio)
        → get_elem? g.in_async i ≡ some slot
        → Keeps itself (close_ep g (i + 0x80))
    from_slot none h = let n = Index-below i l in (g, rw (n.inward, n.low, h) refl, s)
    from_slot (some aio) h =
        let n = Index-below i l in
        let closed =
          log (record g { in_async = set g.in_async i none; in_active = set g.in_active i false })
            (cancel aio.fildes ∷ []) in
        (
          (if aio.fildes == 0 then closed else log closed (close aio.fildes ∷ [])),
          rw
              (
                n.inward,
                n.low,
                h,
                n.low,
                n.inward,
                put_index-inside g.in_active i false (omega (arith, s.active)),
                n.masked,
                h,
                put_index-inside g.in_async i none (omega (arith, s.ins)),
              )
              refl,
          logged_if (aio.fildes == 0) closed (close aio.fildes ∷ []) (
              logged
                (record g { in_async = set g.in_async i none; in_active = set g.in_active i false })
                (cancel aio.fildes ∷ []) (closed_at g i s l)),
        )

pub close_outward-Keeps : (g : Gadget) (i : ℕ) → IsSound g → i < 16 → Keeps itself (close_ep g i)
unfolding close_ep close_slot cancel_aio
close_outward-Keeps g i s l =
    let (slot, h) = get_elem?-some g.out_async i (omega (arith, s.outs)) in from_slot slot h
  where
    from_slot :
        (slot : Option Aio) → get_elem? g.out_async i ≡ some slot → Keeps itself (close_ep g i)
    from_slot none h = let n = Index-below i l in (g, rw (n.outward, n.plain, h) refl, s)
    from_slot (some aio) h =
        let n = Index-below i l in
        let closed =
          log (record g { out_async = set g.out_async i none }) (cancel aio.fildes ∷ []) in
        (
          (if aio.fildes == 0 then closed else log closed (close aio.fildes ∷ [])),
          rw
              (
                n.outward,
                n.plain,
                h,
                n.outward,
                h,
                n.plain,
                put_index-inside g.out_async i none (omega (arith, s.outs)),
              )
              refl,
          logged_if (aio.fildes == 0) closed (close aio.fildes ∷ []) (
              logged (record g { out_async = set g.out_async i none }) (cancel aio.fildes ∷ [])
                (dropped_out g i none s)),
        )

after_set_in {ℓ} :
    {B : Type ℓ} (g : Gadget) (i : ℕ) (aio : Option Aio) (f : Gadget → Result B)
    → IsSound g
    → i < 16
    → (set_in g (bit_and (i + 0x80) 0xf) aio >>= f)
      ≡ f (record g { in_async = set g.in_async i aio })
after_set_in g i aio f s l =
    let n = Index-below i l in
    ap (λ k. set_in g k aio >>= f) n.low
    ∙ ap (λ r. (r >>= λ slots. ok (record g { in_async = slots })) >>= f)
        (put_index-inside g.in_async i aio (omega (arith, s.ins)))

after_set_active {ℓ} :
    {B : Type ℓ} (g : Gadget) (i : ℕ) (b : Bool) (f : Gadget → Result B)
    → IsSound g
    → i < 16
    → (set_active g (bit_and (i + 0x80) 0xf) b >>= f)
      ≡ f (record g { in_active = set g.in_active i b })
after_set_active g i b f s l =
    let n = Index-below i l in
    ap (λ k. set_active g k b >>= f) n.low
    ∙ ap (λ r. (r >>= λ active. ok (record g { in_active = active })) >>= f)
        (put_index-inside g.in_active i b (omega (arith, s.active)))

bind-unit {ℓ} : {A : Type ℓ} (r : Result A) → (r >>= λ a. ok a) ≡ r
bind-unit (ok a) = refl
bind-unit fault = refl
bind-unit exits = refl
bind-unit spins = refl

pub submit-Keeps :
    (g : Gadget) (i : ℕ) (aio : Aio) (bytes : Bytes) (outcome : Submitted)
    → IsSound g
    → i < 16
    → Keeps itself (submit g (i + 0x80) aio bytes outcome)
unfolding submit
submit-Keeps g i aio bytes outcome s l = from_outcome outcome
  where
    next : Aio
    next = record aio { buffer = some bytes; nbytes = length bytes }

    held : Gadget
    held = record g { in_async = set g.in_async i (some next) }

    held-IsSound : IsSound held
    held-IsSound = opened_in g i next s l

    here : get_elem? held.in_async i ≡ some (some next)
    here = get_elem?-set_self g.in_async i (some next) (omega (arith, s.ins))

    from_outcome : (outcome : Submitted) → Keeps itself (submit g (i + 0x80) aio bytes outcome)
    from_outcome accepted = (
      record held { in_active = set g.in_active i true },
      after_set_in g i (some next) (λ g1. set_active g1 (bit_and (i + 0x80) 0xf) true) s l
          ∙ sym (bind-unit (set_active held (bit_and (i + 0x80) 0xf) true))
          ∙ after_set_active held i true (λ g2. ok g2) held-IsSound l,
      started_at held i next held-IsSound l here,
    )
    from_outcome refused_by_shutdown =
        let (g', r, k) = close_inward-Keeps held i held-IsSound l in
        (g', after_set_in g i (some next) (λ g1. close_ep g1 (i + 0x80)) s l ∙ r, k)
    from_outcome refused = (held, after_set_in g i (some next) (λ g1. ok g1) s l, held-IsSound)

pub complete-Keeps :
    (g : Gadget) (i : ℕ) (aio : Aio) (w : Wait) (status : AioStatus)
    → IsSound g
    → i < 16
    → Keeps (λ r. r.0) (complete g (i + 0x80) aio w status)
unfolding complete
complete-Keeps g i aio w status s l = from_status status
  where
    next : Aio
    next = record aio { buffer = none; nbytes = 0 }

    held : Gadget
    held = record g { in_async = set g.in_async i (some next) }

    held-IsSound : IsSound held
    held-IsSound = opened_in g i next s l

    idle : Gadget
    idle = record held { in_active = set g.in_active i false }

    idle-IsSound : IsSound idle
    idle-IsSound = silenced_at held i held-IsSound l

    from_status : (status : AioStatus) → Keeps (λ r. r.0) (complete g (i + 0x80) aio w status)
    from_status in_progress = ((g, false), refl, s)
    from_status finished = elim (Bool-cases w.is_returned) [
      | inl returned ↦ (
        (idle, true),
        after_set_in g i (some next)
              (λ g1.
                if w.is_returned
                then (set_active g1 (bit_and (i + 0x80) 0xf) false >>= λ g2. ok (g2, true))
                else ok (g1, false))
              s l
            ∙ ap
                (λ b.
                  if b
                  then (set_active held (bit_and (i + 0x80) 0xf) false >>= λ g2. ok (g2, true))
                  else ok (held, false))
                returned
            ∙ after_set_active held i false (λ g2. ok (g2, true)) held-IsSound l,
        idle-IsSound,
      )
      | inr lost ↦ (
        (held, false),
        after_set_in g i (some next)
              (λ g1.
                if w.is_returned
                then (set_active g1 (bit_and (i + 0x80) 0xf) false >>= λ g2. ok (g2, true))
                else ok (g1, false))
              s l
            ∙ ap
                (λ b.
                  if b
                  then (set_active held (bit_and (i + 0x80) 0xf) false >>= λ g2. ok (g2, true))
                  else ok (held, false))
                lost,
        held-IsSound,
      )
    ]
    from_status shutdown =
        let (g2, r, k) = close_inward-Keeps held i held-IsSound l in
        (
          (record g2 { in_active = set g2.in_active i false }, true),
          after_set_in g i (some next)
                (λ g1. close_ep g1 (i + 0x80) >>= λ g2.
                  (set_active g2 (bit_and (i + 0x80) 0xf) false >>= λ g3. ok (g3, true)))
                s l
              ∙ ap
                  (λ q. q >>= λ g2.
                    (set_active g2 (bit_and (i + 0x80) 0xf) false >>= λ g3. ok (g3, true)))
                  r
              ∙ after_set_active g2 i false (λ g3. ok (g3, true)) k l,
          silenced_at g2 i k l,
        )
    from_status failed = (
      (idle, true),
      after_set_in g i (some next)
            (λ g1. set_active g1 (bit_and (i + 0x80) 0xf) false >>= λ g2. ok (g2, true)) s l
          ∙ after_set_active held i false (λ g2. ok (g2, true)) held-IsSound l,
      idle-IsSound,
    )
