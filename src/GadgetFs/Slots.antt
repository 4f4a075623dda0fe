-- ===== src/GadgetFs/Slots.antt =====
-- Plugins/Hosts/HostProxy_GadgetFS.cpp: what closing one endpoint does.
use mathlib.Core.Bool.{not, not, not, not, not}
use usbproxy.Base.{
  ℕ, ◌+◌, ◌<◌, ◌≡◌, refl, sym, ap, ◌∙◌, inl, inr, Bool, true, false, ◌&&◌, not, Option, none, some,
  List, [], ◌∷◌, ◌++◌, append-nil, append_assoc, ◌==◌, if◌then◌else◌, ==_iff, both_true, not-true,
  below, below-holds, Bool-cases, length, get_elem?, get_elem?-at, has,
}
use Prim.Native.Nat.{bit_and}
use usbproxy.Result.{ok, put_index-at}
use usbproxy.GadgetFs.{
  Gadget, Aio, Call, close, cancel, log, close_ep, close_slot, cancel_aio, disconnect_at,
}

abbrev pub with_tables : Gadget → List (Option Aio) → List (Option Aio) → List Bool → Gadget
with_tables g ins outs active = record g { in_async = ins; out_async = outs; in_active = active }

-- What closing the endpoint of a slot calls.
abbrev pub closing : Option Aio → List Call
closing none = []
closing (some aio) = cancel aio.fildes ∷ (if aio.fildes == 0 then [] else (close aio.fildes ∷ []))

-- An endpoint that is closed is not active any more.
abbrev pub off : Option Aio → Bool → Bool
off none active = active
off (some _) active = false

indices :
    below
      (λ k.
        (has (k + 0x80) 0x80 && bit_and (k + 0x80) 0xf == k)
        && (bit_and (k + 0x80) 0x7f == k && (not (has k 0x80) && bit_and k 0xf == k)))
      16
    ≡ true
unfolding below
indices = refl

pub record Index (k : ℕ) : Type 0 where
  pub inward : has (k + 0x80) 0x80 ≡ true
  pub low : bit_and (k + 0x80) 0xf ≡ k
  pub masked : bit_and (k + 0x80) 0x7f ≡ k
  pub outward : has k 0x80 ≡ false
  pub plain : bit_and k 0xf ≡ k

pub Index-below : (k : ℕ) → k < 16 → Index k
Index-below k l =
    let test =
      below-holds
        (λ k.
          (has (k + 0x80) 0x80 && bit_and (k + 0x80) 0xf == k)
          && (bit_and (k + 0x80) 0x7f == k && (not (has k 0x80) && bit_and k 0xf == k)))
        16 k indices l in
    let (first, second) = both_true (has (k + 0x80) 0x80 && bit_and (k + 0x80) 0xf == k) _ test in
    let (inward, low) = both_true (has (k + 0x80) 0x80) _ first in
    let (masked, third) = both_true (bit_and (k + 0x80) 0x7f == k) _ second in
    let (outward, plain) = both_true (not (has k 0x80)) _ third in
    record {
      inward = inward;
      low = (==_iff (bit_and (k + 0x80) 0xf) k).0 low;
      masked = (==_iff (bit_and (k + 0x80) 0x7f) k).0 masked;
      outward = not-true (has k 0x80) outward;
      plain = (==_iff (bit_and k 0xf) k).0 plain;
    }

logged :
    (g : Gadget) (aio : Aio)
    → (if aio.fildes == 0
        then log g (cancel aio.fildes ∷ [])
        else log (log g (cancel aio.fildes ∷ [])) (close aio.fildes ∷ []))
      ≡ log g (closing (some aio))
logged g aio = elim (Bool-cases (aio.fildes == 0)) [
  | inl unset ↦ rw unset refl
  | inr open_one ↦ rw open_one (
      ap (λ cs. record g { calls = cs })
        (append_assoc g.calls (cancel aio.fildes ∷ []) (close aio.fildes ∷ [])))
]

close_inward :
    (g : Gadget) (p ins outs : List (Option Aio)) (r act : List Bool) (a : Bool) (aio : Aio) (i : ℕ)
    → length p ≡ i
    → length r ≡ i
    → i < 16
    → close_ep (with_tables g (p ++ (some aio ∷ ins)) outs (r ++ (a ∷ act))) (i + 0x80)
      ≡ ok (log (with_tables g (p ++ (none ∷ ins)) outs (r ++ (false ∷ act))) (closing (some aio)))
unfolding close_ep close_slot cancel_aio
close_inward g p ins outs r act a aio i hp hr l =
    let n = Index-below i l in
    let here : get_elem? (p ++ (some aio ∷ ins)) i ≡ some (some aio) =
      get_elem?-at p (some aio) ins i hp in
    rw
      (
        n.inward,
        n.low,
        here,
        n.low,
        n.inward,
        put_index-at r a false act i hr,
        n.masked,
        here,
        put_index-at p (some aio) none ins i hp,
      )
      (ap ok (logged (with_tables g (p ++ (none ∷ ins)) outs (r ++ (false ∷ act))) aio))

close_outward :
    (g : Gadget) (q ins outs : List (Option Aio)) (act : List Bool) (aio : Aio) (i : ℕ)
    → length q ≡ i
    → i < 16
    → close_ep (with_tables g ins (q ++ (some aio ∷ outs)) act) i
      ≡ ok (log (with_tables g ins (q ++ (none ∷ outs)) act) (closing (some aio)))
unfolding close_ep close_slot cancel_aio
close_outward g q ins outs act aio i hq l =
    let n = Index-below i l in
    let here : get_elem? (q ++ (some aio ∷ outs)) i ≡ some (some aio) =
      get_elem?-at q (some aio) outs i hq in
    rw
      (n.outward, n.plain, here, n.outward, here, n.plain, put_index-at q (some aio) none outs i hq)
      (ap ok (logged (with_tables g ins (q ++ (none ∷ outs)) act) aio))

-- One index of both tables.
pub disconnect_at-closing :
    (g : Gadget) (p q ins outs : List (Option Aio)) (r act : List Bool) (a : Bool)
    (x y : Option Aio) (i : ℕ)
    → length p ≡ i
    → length q ≡ i
    → length r ≡ i
    → i < 16
    → disconnect_at (with_tables g (p ++ (x ∷ ins)) (q ++ (y ∷ outs)) (r ++ (a ∷ act))) i
      ≡ ok (
          log
            (with_tables g (p ++ (none ∷ ins)) (q ++ (none ∷ outs)) (r ++ (off x a ∷ act)))
            (closing x ++ closing y))
unfolding disconnect_at
disconnect_at-closing g p q ins outs r act a none none i hp hq hr l =
    rw
      (
        get_elem?-at {A = Option Aio} p none ins i hp,
        get_elem?-at {A = Option Aio} q none outs i hq,
      )
      (ap
        (λ cs.
          ok (record (with_tables g (p ++ (none ∷ ins)) (q ++ (none ∷ outs)) (r ++ (a ∷ act))) {
            calls = cs;
          }))
        (sym (append-nil g.calls)))
disconnect_at-closing g p q ins outs r act a none (some y) i hp hq hr l =
    rw (get_elem?-at {A = Option Aio} p none ins i hp, get_elem?-at q (some y) outs i hq)
      (close_outward g q (p ++ (none ∷ ins)) outs (r ++ (a ∷ act)) y i hq l)
disconnect_at-closing g p q ins outs r act a (some x) none i hp hq hr l =
    rw
      (
        get_elem?-at p (some x) ins i hp,
        close_inward g p ins (q ++ (none ∷ outs)) r act a x i hp hr l,
        get_elem?-at {A = Option Aio} q none outs i hq,
      )
      (ap
        (λ cs.
          ok (log (with_tables g (p ++ (none ∷ ins)) (q ++ (none ∷ outs)) (r ++ (false ∷ act))) cs))
        (sym (append-nil (closing (some x)))))
disconnect_at-closing g p q ins outs r act a (some x) (some y) i hp hq hr l =
    rw
      (
        get_elem?-at p (some x) ins i hp,
        close_inward g p ins (q ++ (some y ∷ outs)) r act a x i hp hr l,
        get_elem?-at q (some y) outs i hq,
      )
      (close_outward (log g (closing (some x))) q (p ++ (none ∷ ins)) outs (r ++ (false ∷ act)) y i
          hq l
        ∙ ap
            (λ cs.
              ok
                (record (with_tables g (p ++ (none ∷ ins)) (q ++ (none ∷ outs))
                  (r ++ (false ∷ act))) { calls = cs }))
            (append_assoc g.calls (closing (some x)) (closing (some y))))
