-- ===== src/GadgetFs/Active.antt =====
-- Plugins/Hosts/HostProxy_GadgetFS.cpp: no endpoint is active that is not open, and the transfers
-- never run into a fault.
use usbproxy.Base.{
  ℕ, ◌<◌, ◌≡◌, refl, sym, ap, ◌∙◌, inl, inr, true, false, Option, none, some, List, arith, ◌==◌,
  lt→ltb, ==_iff, Bool-cases, length, get_elem?, set, length-set, get_elem?-set_self,
  get_elem?-set_ne,
}
use usbproxy.Result.{Result, ok, put_index}
use usbproxy.GadgetFs.{Gadget, Aio, Call, log}

-- The arrays have 16 entries, and an endpoint with an active transfer is open.
pub record IsSound (g : Gadget) : Type 0 where
  pub ins : length g.in_async ≡ 16
  pub outs : length g.out_async ≡ 16
  pub active : length g.in_active ≡ 16
  pub opened :
      (k : ℕ)
      → get_elem? g.in_active k ≡ some true
      → (aio : Aio) × (get_elem? g.in_async k ≡ some (some aio))

-- What an operation comes to: it returns, and leaves a sound state.
abbrev pub Keeps {ℓ} : {A : Type ℓ} → (A → Gadget) → Result A → Type ℓ
Keeps state r = (a : _) × (r ≡ ok a) × IsSound (state a)

pub put_index-inside {ℓ} :
    {A : Type ℓ} (xs : List A) (i : ℕ) (v : A) → i < length xs → put_index xs i v ≡ ok (set xs i v)
put_index-inside xs i v l = rw (lt→ltb i (length xs) l) refl

pub opened_in :
    (g : Gadget) (i : ℕ) (aio : Aio)
    → IsSound g
    → i < 16
    → IsSound (record g { in_async = set g.in_async i (some aio) })
opened_in g i aio s l = record {
  ins = length-set g.in_async i (some aio) ∙ s.ins;
  outs = s.outs;
  active = s.active;
  opened = λ k on. elim (Bool-cases (i == k)) [
    | inl same ↦ (
      aio,
      ap (get_elem? (set g.in_async i (some aio))) (sym ((==_iff i k).0 same))
          ∙ get_elem?-set_self g.in_async i (some aio) (omega (arith, s.ins)),
    )
    | inr other ↦
        let (old, h) = s.opened k on in
        (old, get_elem?-set_ne g.in_async i k (some aio) (ground (arith, other)) ∙ h)
  ];
}

pub silenced_at :
    (g : Gadget) (i : ℕ)
    → IsSound g
    → i < 16
    → IsSound (record g { in_active = set g.in_active i false })
silenced_at g i s l = record {
  ins = s.ins;
  outs = s.outs;
  active = length-set g.in_active i false ∙ s.active;
  opened = λ k on. elim (Bool-cases (i == k)) [
    | inl same ↦
        let off : get_elem? (set g.in_active i false) k ≡ some false =
          ap (get_elem? (set g.in_active i false)) (sym ((==_iff i k).0 same))
          ∙ get_elem?-set_self g.in_active i false (omega (arith, s.active)) in
        absurd (cc off)
    | inr other ↦
        s.opened k (sym (get_elem?-set_ne g.in_active i k false (ground (arith, other))) ∙ on)
  ];
}

pub started_at :
    (g : Gadget) (i : ℕ) (aio : Aio)
    → IsSound g
    → i < 16
    → get_elem? g.in_async i ≡ some (some aio)
    → IsSound (record g { in_active = set g.in_active i true })
started_at g i aio s l there = record {
  ins = s.ins;
  outs = s.outs;
  active = length-set g.in_active i true ∙ s.active;
  opened = λ k on. elim (Bool-cases (i == k)) [
    | inl same ↦ (aio, ap (get_elem? g.in_async) (sym ((==_iff i k).0 same)) ∙ there)
    | inr other ↦
        s.opened k (sym (get_elem?-set_ne g.in_active i k true (ground (arith, other))) ∙ on)
  ];
}

pub closed_at :
    (g : Gadget) (i : ℕ)
    → IsSound g
    → i < 16
    → IsSound (record g { in_async = set g.in_async i none; in_active = set g.in_active i false })
closed_at g i s l =
    let quiet = silenced_at g i s l in
    record {
      ins = length-set g.in_async i none ∙ s.ins;
      outs = s.outs;
      active = quiet.active;
      opened = λ k on. elim (Bool-cases (i == k)) [
        | inl same ↦
            let off : get_elem? (set g.in_active i false) k ≡ some false =
              ap (get_elem? (set g.in_active i false)) (sym ((==_iff i k).0 same))
              ∙ get_elem?-set_self g.in_active i false (omega (arith, s.active)) in
            absurd (cc off)
        | inr other ↦
            let (old, h) = quiet.opened k on in
            (old, get_elem?-set_ne g.in_async i k none (ground (arith, other)) ∙ h)
      ];
    }

pub dropped_out :
    (g : Gadget) (i : ℕ) (aio : Option Aio)
    → IsSound g
    → IsSound (record g { out_async = set g.out_async i aio })
dropped_out g i aio s = record {
  ins = s.ins;
  outs = length-set g.out_async i aio ∙ s.outs;
  active = s.active;
  opened = s.opened;
}

pub logged : (g : Gadget) (cs : List Call) → IsSound g → IsSound (log g cs)
logged g cs s = record { ins = s.ins; outs = s.outs; active = s.active; opened = s.opened }
