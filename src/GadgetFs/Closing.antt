-- ===== src/GadgetFs/Closing.antt =====
-- Plugins/Hosts/HostProxy_GadgetFS.cpp: what disconnecting closes.
use mathlib.Core.Bool.{not, not, not, not, not}
use usbproxy.Base.{
  ℕ, zero, suc, ◌+◌, ◌≤◌, ◌≡◌, refl, sym, ap, ap₂, ◌∙◌, inl, inr, Bool, true, false, not, Option,
  none, List, [], ◌∷◌, ◌++◌, append-nil, append_assoc, arith, ◌==◌, if◌then◌else◌, ==_iff,
  Bool-cases, length, replicate, length-append,
}
use usbproxy.Result.{Result, ◌>>=◌, ok}
use usbproxy.GadgetFs.{
  Gadget, Aio, Call, close, unmount, log, disconnect_from, disconnect_eps, disconnect, close_file,
}
use usbproxy.GadgetFs.Slots.{with_tables, closing, off, disconnect_at-closing}

-- The calls for both tables, index by index.
abbrev pub closings : List (Option Aio) → List (Option Aio) → List Call
closings [] outs = []
closings (x ∷ ins) [] = []
closings (x ∷ ins) (y ∷ outs) = (closing x ++ closing y) ++ closings ins outs

abbrev pub silenced : List (Option Aio) → List Bool → List Bool
silenced [] active = []
silenced (x ∷ ins) [] = []
silenced (x ∷ ins) (a ∷ active) = off x a ∷ silenced ins active

abbrev snoc {ℓ} : {A : Type ℓ} → List A → A → List A
snoc p x = p ++ (x ∷ [])

length-snoc {ℓ} :
    {A : Type ℓ} (p : List A) (x : A) (i : ℕ) → length p ≡ i → length (snoc p x) ≡ suc i
length-snoc p x i h = length-append p (x ∷ []) ∙ omega arith

disconnect_from-closings :
    (n i : ℕ) (g : Gadget) (p q ins outs : List (Option Aio)) (r act : List Bool)
    → length p ≡ i
    → length q ≡ i
    → length r ≡ i
    → length ins ≡ n
    → length outs ≡ n
    → length act ≡ n
    → i + n ≤ 16
    → disconnect_from n i (with_tables g (p ++ ins) (q ++ outs) (r ++ act))
      ≡ ok (
          log
            (with_tables g (p ++ replicate n none) (q ++ replicate n none) (r ++ silenced ins act))
            (closings ins outs))
unfolding disconnect_from
disconnect_from-closings zero i g p q [] [] r [] hp hq hr hi ho ha l =
    ap (λ cs. ok (record (with_tables g (p ++ []) (q ++ []) (r ++ [])) { calls = cs }))
      (sym (append-nil g.calls))
disconnect_from-closings zero i g p q (x ∷ ins) outs r act hp hq hr hi ho ha l =
    absurd (omega arith)
disconnect_from-closings zero i g p q [] (y ∷ outs) r act hp hq hr hi ho ha l = absurd (omega arith)
disconnect_from-closings zero i g p q [] [] r (a ∷ act) hp hq hr hi ho ha l = absurd (omega arith)
disconnect_from-closings (suc n) i g p q [] outs r act hp hq hr hi ho ha l = absurd (omega arith)
disconnect_from-closings (suc n) i g p q (x ∷ ins) [] r act hp hq hr hi ho ha l =
    absurd (omega arith)
disconnect_from-closings (suc n) i g p q (x ∷ ins) (y ∷ outs) r [] hp hq hr hi ho ha l =
    absurd (omega arith)
disconnect_from-closings (suc n) i g p q (x ∷ ins) (y ∷ outs) r (a ∷ act) hp hq hr hi ho ha l =
    let now = closing x ++ closing y in
    let rest =
      disconnect_from-closings n (suc i) (log g now) (snoc p none) (snoc q none) ins outs
        (snoc r (off x a)) act (length-snoc p none i hp) (length-snoc q none i hq)
        (length-snoc r (off x a) i hr) (omega arith) (omega arith) (omega arith) (omega arith) in
    let moved =
      rw
        (
          append_assoc p (none ∷ []) ins,
          append_assoc q (none ∷ []) outs,
          append_assoc r (off x a ∷ []) act,
          append_assoc p (none ∷ []) (replicate n none),
          append_assoc q (none ∷ []) (replicate n none),
          append_assoc r (off x a ∷ []) (silenced ins act),
          append_assoc g.calls now (closings ins outs),
        )
        at rest in
    rw (disconnect_at-closing g p q ins outs r act a x y i hp hq hr (omega arith)) moved

-- The arrays have 16 entries.
pub record IsSized (g : Gadget) : Type 0 where
  pub ins : length g.in_async ≡ 16
  pub outs : length g.out_async ≡ 16
  pub active : length g.in_active ≡ 16

-- What is closed of the device file.
abbrev pub file_closing : ℕ → List Call
file_closing file = if file == 0 then [] else close file ∷ []

close_file-closing :
    (g : Gadget)
    → close_file g ≡ record g { device_file = 0; calls = g.calls ++ file_closing g.device_file }
close_file-closing g = elim (Bool-cases (g.device_file == 0)) [
  | inl unset ↦ rw unset (
      ap₂ (λ file cs. record g { device_file = file; calls = cs })
        ((==_iff g.device_file 0).0 unset) (sym (append-nil g.calls)))
  | inr opened ↦ rw opened refl
]

disconnect_eps-closings :
    (g : Gadget)
    → IsSized g
    → disconnect_eps g
      ≡ ok (
          log
            (with_tables g
              (replicate 16 none)
              (replicate 16 none)
              (silenced g.in_async g.in_active))
            (closings g.in_async g.out_async))
unfolding disconnect_eps
disconnect_eps-closings g s =
    disconnect_from-closings 16 0 g [] [] g.in_async g.out_async [] g.in_active refl refl refl s.ins
      s.outs s.active (omega arith)

-- A connected proxy whose arrays have 16 entries can always be disconnected. Its device file is then
-- closed, if it was open, and so is each endpoint that was open, in the order of the indices, IN
-- before OUT, with its transfer cancelled first; no slot is left, and the gadget is unmounted last.
pub disconnect-closings :
    (g : Gadget)
    → IsSized g
    → g.is_connected ≡ true
    → disconnect g
      ≡ ok (record g {
        is_connected = false;
        device_file = 0;
        in_async = replicate 16 none;
        out_async = replicate 16 none;
        in_active = silenced g.in_async g.in_active;
        calls =
            (g.calls ++ file_closing g.device_file)
            ++ (closings g.in_async g.out_async ++ (unmount ∷ []));
      })
unfolding disconnect
disconnect-closings g s c =
    let closed = record g { device_file = 0; calls = g.calls ++ file_closing g.device_file } in
    let all_closed =
      disconnect_eps-closings closed (record { ins = s.ins; outs = s.outs; active = s.active }) in
    ap (λ b. if not b then ok g else disconnect_eps (close_file g) >>= unmounted) c
    ∙ ap (λ h. disconnect_eps h >>= unmounted) (close_file-closing g)
    ∙ ap (λ r. r >>= unmounted) all_closed
    ∙ ap
        (λ cs.
          ok
            (record (with_tables closed (replicate 16 none) (replicate 16 none)
              (silenced g.in_async g.in_active)) { is_connected = false; calls = cs }))
        (append_assoc (g.calls ++ file_closing g.device_file) (closings g.in_async g.out_async)
          (unmount ∷ []))
  where
    unmounted : Gadget → Result Gadget
    unmounted g' = ok (record g' { is_connected = false; calls = g'.calls ++ (unmount ∷ []) })
