-- ===== src/Tcp/Closed.antt =====
-- What is opened after `disconnect`.
use usbproxy.Base.{
  ℕ, zero, suc, ◌<◌, ◌≡◌, refl, sym, ap, subst, ◌∙◌, true, Option, none, some, List, [], ◌∷◌, map,
  arith, length, get_elem?, get_elem?-inside, All, All-get_elem?,
}
use usbproxy.Result.{deref, ok}
use usbproxy.Tcp.{Helper, done, Dial, port_of, disconnect, descriptor_of}
use usbproxy.Tcp.Open.{dial_all, client_open_endpoints}

-- The endpoints that the helper takes to be connected.
abbrev pub AreConnected : Helper → List (ℕ × Dial) → Type 0
AreConnected h eps =
    All (λ e. (get_elem? h.connects (port_of e.0) ≡ some true) × (port_of e.0 < length h.sockets))
      eps

zeroed :
    (sockets : List ℕ) (i : ℕ)
    → i < length sockets
    → get_elem? {A = ℕ} (map (λ _. 0) sockets) i ≡ some 0
zeroed [] i h = absurd (omega arith)
zeroed (s ∷ ss) zero h = refl
zeroed (s ∷ ss) (suc i) h = zeroed ss i (omega arith)

dial_all-disconnect :
    (h : Helper) (eps : List (ℕ × Dial))
    → AreConnected h eps
    → dial_all eps (disconnect h) ≡ ok (disconnect h, 0)
unfolding dial_all disconnect
dial_all-disconnect h [] c = refl
dial_all-disconnect h ((ep, w) ∷ eps) ((made, inside), rest) =
    rw (made, zeroed h.sockets (port_of ep) inside)
      (rw made (rw (dial_all-disconnect h eps rest) refl))

descriptor_of-disconnect :
    (h : Helper) (ep : ℕ) → port_of ep < length h.sockets → descriptor_of (disconnect h) ep ≡ ok 0
unfolding descriptor_of disconnect
descriptor_of-disconnect h ep inside = ap deref (zeroed h.sockets (port_of ep) inside)

-- After `disconnect` the endpoints that were connected still pass for connected: to open them again
-- does nothing and succeeds, and what is then sent to any of them is written to descriptor 0.
pub client_open_endpoints-disconnect :
    (h : Helper) (eps : List (ℕ × Dial)) (polled : Option (List (ℕ × Dial))) (i ep : ℕ) (w : Dial)
    → AreConnected h eps
    → get_elem? eps i ≡ some (ep, w)
    → (client_open_endpoints eps polled (disconnect h) ≡ ok (disconnect h, done))
      × (descriptor_of (disconnect h) ep ≡ ok 0)
unfolding client_open_endpoints
client_open_endpoints-disconnect h eps polled i ep w c e =
    let (found, at, (made, inside)) =
      All-get_elem?
        (λ (q : ℕ × Dial).
          (get_elem? h.connects (port_of q.0) ≡ some true) × (port_of q.0 < length h.sockets))
        eps i (get_elem?-inside eps i (ep, w) e) c in
    let same : found.0 ≡ ep = ap (λ (o : Option (ℕ × Dial)). first o) (sym at ∙ e) in
    (
      rw (dial_all-disconnect h eps c) refl,
      descriptor_of-disconnect h ep (subst (λ q. port_of q < length h.sockets) same inside),
    )
  where
    first : Option (ℕ × Dial) → ℕ
    first none = 0
    first (some q) = q.0
