-- ===== src/Tcp/Sockets.antt =====
-- Which connected endpoints have a socket.
use usbproxy.Base.{
  ℕ, ◌≡◌, sym, ap, subst, ◌∙◌, ◌≢◌, inl, inr, Bool, true, false, ◌&&◌, not, Option, none, some,
  arith, ◌==◌, if◌then◌else◌, ==_iff, ==_ne, if-cases, Bool-cases, get_elem?, has,
}
use usbproxy.Result.{
  deref-ok, at_index, Result, ◌>>=◌, ok, put_index, bind-ok, ok-injective, Written,
  put_index-Written,
}
use usbproxy.Tcp.{
  dial_new, Polled, expired, events, Connecting, connected, in_progress, refused, dial,
  client_connect, Dial, failed, pollout, pollhup, events, timed_out, Polled, await, Helper, Code,
  done, connect_at, socket_at,
}

-- An endpoint that is connected has a socket.
unfoldable pub HasSockets : Helper → Type 0
HasSockets h =
    (p s : ℕ) → get_elem? h.connects p ≡ some true → get_elem? h.sockets p ≡ some s → s ≢ 0

-- An outcome at a port: every connected endpoint has a socket, and the code 0 is that of a
-- connected endpoint.
pub record Dialled (port : ℕ) (h' : Helper) (code : Code) : Type 0 where
  pub sockets : HasSockets h'
  pub connected : code ≡ done → get_elem? h'.connects port ≡ some true

socket_at-fields :
    (h h' : Helper) (port sock : ℕ)
    → socket_at h port sock ≡ ok h'
    → Written h.sockets port sock h'.sockets × (h'.connects ≡ h.connects)
socket_at-fields h h' port sock e =
    let (sockets, w, f) = bind-ok (put_index h.sockets port sock) _ h' e in
    let same = ok-injective _ h' f in
    (
      subst (λ v. Written h.sockets port sock v) (ap (λ (q : Helper). q.sockets) same)
          (put_index-Written h.sockets port sock sockets w),
      ap (λ (q : Helper). q.connects) (sym same),
    )

connect_at-fields :
    (h h' : Helper) (port : ℕ) (b : Bool)
    → connect_at h port b ≡ ok h'
    → Written h.connects port b h'.connects × (h'.sockets ≡ h.sockets)
connect_at-fields h h' port b e =
    let (connects, w, f) = bind-ok (put_index h.connects port b) _ h' e in
    let same = ok-injective _ h' f in
    (
      subst (λ v. Written h.connects port b v) (ap (λ (q : Helper). q.connects) same)
          (put_index-Written h.connects port b connects w),
      ap (λ (q : Helper). q.sockets) (sym same),
    )

-- To note a port as connected that has a socket, or as not connected.
connect_at-HasSockets :
    (h h' : Helper) (port : ℕ) (b : Bool)
    → ((p s : ℕ)
        → p ≢ port
        → get_elem? h.connects p ≡ some true
        → get_elem? h.sockets p ≡ some s
        → s ≢ 0)
    → ((s : ℕ) → b ≡ true → get_elem? h.sockets port ≡ some s → s ≢ 0)
    → connect_at h port b ≡ ok h'
    → HasSockets h'
unfolding HasSockets
connect_at-HasSockets h h' port b others here e p s c k =
    let (w, same) = connect_at-fields h h' port b e in
    let k' : get_elem? h.sockets p ≡ some s = ap (λ v. get_elem? v p) (sym same) ∙ k in
    elim (Bool-cases (p == port)) [
      | inl at ↦
          let equal : p ≡ port = (==_iff p port).0 at in
          let now = w.here in
          let value : b ≡ true = cc in
          here s value (ap (λ q. get_elem? h.sockets q) (sym equal) ∙ k')
      | inr away ↦
          let apart : port ≢ p = ground (arith, away) in
          others p s (λ q. apart (sym q)) (sym (w.elsewhere p apart) ∙ c) k'
    ]

-- A port that is not connected can lose its socket.
socket_at-HasSockets :
    (h h' : Helper) (port sock : ℕ)
    → HasSockets h
    → (get_elem? h.connects port ≡ some true → sock ≢ 0)
    → socket_at h port sock ≡ ok h'
    → HasSockets h'
unfolding HasSockets
socket_at-HasSockets h h' port sock all ok_here e p s c k =
    let (w, same) = socket_at-fields h h' port sock e in
    let c' : get_elem? h.connects p ≡ some true = ap (λ v. get_elem? v p) (sym same) ∙ c in
    elim (Bool-cases (p == port)) [
      | inl at ↦
          let equal : p ≡ port = (==_iff p port).0 at in
          let now = w.here in
          let value : sock ≡ s = cc in
          λ z. ok_here (ap (λ q. get_elem? h.connects q) (sym equal) ∙ c') (value ∙ z)
      | inr away ↦
          let apart : port ≢ p = ground (arith, away) in all p s c' (sym (w.elsewhere p apart) ∙ k)
    ]

-- The code is another one than 0.
unconnected :
    (port : ℕ) (h h' : Helper) (c code : Code)
    → c ≢ done
    → HasSockets h
    → ◌≡◌ {A = Result (Helper × Code)} (ok (h, c)) (ok (h', code))
    → Dialled port h' code
unconnected port h h' c code n all e =
    let same = ok-injective (h, c) (h', code) e in
    subst (λ q. Dialled port q.0 q.1) same (record { sockets = all; connected = λ d. absurd (n d) })

now_connected :
    (h h1 h' : Helper) (port s : ℕ) (code : Code)
    → HasSockets h
    → get_elem? h.sockets port ≡ some s
    → s ≢ 0
    → connect_at h port true ≡ ok h1
    → ◌≡◌ {A = Result (Helper × Code)} (ok (h1, done)) (ok (h', code))
    → Dialled port h' code
unfolding HasSockets
now_connected h h1 h' port s code all there n f e =
    let same = ok-injective (h1, done) (h', code) e in
    let (w, _) = connect_at-fields h h1 port true f in
    let sockets : HasSockets h1 =
      connect_at-HasSockets h h1 port true (λ p q _ c k. all p q c k)
        (λ q _ k. let equal : s ≡ q = cc in λ z. n (equal ∙ z)) f in
    subst (λ q. Dialled port q.0 q.1) same (record { sockets = sockets; connected = λ _. w.here })

await-Dialled :
    (h h' : Helper) (port s : ℕ) (p : Polled) (code : Code)
    → HasSockets h
    → get_elem? h.connects port ≡ some false
    → get_elem? h.sockets port ≡ some s
    → s ≢ 0
    → await h port p ≡ ok (h', code)
    → Dialled port h' code
unfolding await
await-Dialled h h' port s expired code all idle there n e =
    unconnected port h h' timed_out code (λ d. cc) all e
await-Dialled h h' port s (events v) code all idle there n e =
    elim (if-cases (has v pollhup) (socket_at h port 0 >>= λ q. ok (q, timed_out))
      (if v == pollout then (connect_at h port true >>= λ q. ok (q, done)) else ok (h, failed))
      (ok (h', code)) e) [
        | inl (hung, e1) ↦
            let (h1, f, e2) = bind-ok (socket_at h port 0) _ (h', code) e1 in
            unconnected port h1 h' timed_out code (λ d. cc)
              (socket_at-HasSockets h h1 port 0 all (λ c. cc) f) e2
        | inr (alive, e1) ↦
            elim (if-cases (v == pollout) (connect_at h port true >>= λ q. ok (q, done))
              (ok (h, failed)) (ok (h', code)) e1) [
                | inl (out, e2) ↦
                    let (h1, f, e3) = bind-ok (connect_at h port true) _ (h', code) e2 in
                    now_connected h h1 h' port s code all there n f e3
                | inr (other, e2) ↦ unconnected port h h' failed code (λ d. cc) all e2
              ]
      ]

idle_at :
    (h h1 : Helper) (port : ℕ) → HasSockets h → connect_at h port false ≡ ok h1 → HasSockets h1
unfolding HasSockets
idle_at h h1 port all e =
    connect_at-HasSockets h h1 port false (λ p s _ c k. all p s c k) (λ s z k. cc) e

dial-Dialled :
    (h h' : Helper) (port sock : ℕ) (c : Connecting) (p : Polled) (code : Code)
    → HasSockets h
    → get_elem? h.connects port ≡ some false
    → sock ≢ 0
    → dial h port sock c p ≡ ok (h', code)
    → Dialled port h' code
unfolding dial
dial-Dialled h h' port sock connected p code all idle n e =
    let (h1, f, e1) = bind-ok (socket_at h port sock) _ (h', code) e in
    let (h2, g, e2) = bind-ok (connect_at h1 port true) _ (h', code) e1 in
    let (w, _) = socket_at-fields h h1 port sock f in
    now_connected h1 h2 h' port sock code (socket_at-HasSockets h h1 port sock all (λ _. n) f)
      w.here n g e2
dial-Dialled h h' port sock in_progress p code all idle n e =
    let (h1, f, e1) = bind-ok (socket_at h port sock) _ (h', code) e in
    let (h2, g, e2) = bind-ok (connect_at h1 port false) _ (h', code) e1 in
    let (w, _) = socket_at-fields h h1 port sock f in
    let (v, same) = connect_at-fields h1 h2 port false g in
    let e3 : await h2 port p ≡ ok (h', code) = rw (==_ne sock 0 n) at e2 in
    let kept = socket_at-HasSockets h h1 port sock all (λ _. n) f in
    await-Dialled h2 h' port sock p code (idle_at h1 h2 port kept g) v.here
      (ap (λ q. get_elem? q port) same ∙ w.here) n e3
dial-Dialled h h' port sock refused p code all idle n e =
    unconnected port h h' failed code (λ d. cc) all e

-- Over the results of one dial, the client keeps a socket for each connected endpoint, and the code
-- is 0 only if the endpoint is connected. A new socket is never 0.
pub client_connect-Dialled :
    (h h' : Helper) (port : ℕ) (w : Dial) (code : Code)
    → HasSockets h
    → w.socket ≢ some 0
    → client_connect h port w ≡ ok (h', code)
    → Dialled port h' code
unfolding client_connect dial_new HasSockets
client_connect-Dialled h h' port w code all n e =
    let (b, f, e1) = bind-ok (at_index h.connects port) _ (h', code) e in
    let (s, g, e2) = bind-ok (at_index h.sockets port) _ (h', code) e1 in
    by_state b s (deref-ok (get_elem? h.connects port) b f)
      (deref-ok (get_elem? h.sockets port) s g) e2
  where
    by_socket :
        (o : Option ℕ)
        → o ≢ some 0
        → get_elem? h.connects port ≡ some false
        → dial_new h port w o ≡ ok (h', code)
        → Dialled port h' code
    by_socket none m f e = unconnected port h h' failed code (λ d. cc) all e
    by_socket (some new) m f e =
        dial-Dialled h h' port new w.connecting w.polled code all f (λ z. m (ap some z)) e

    by_state :
        (b : Bool) (s : ℕ)
        → get_elem? h.connects port ≡ some b
        → get_elem? h.sockets port ≡ some s
        → (if b && not (s == 0)
            then ok (h, done)
            else if s == 0
            then dial_new h port w w.socket
            else await h port w.polled)
          ≡ ok (h', code)
        → Dialled port h' code
    by_state true s f g e =
        let there : (s == 0) ≡ false = ==_ne s 0 (all port s f g) in
        let e1 : ◌≡◌ {A = Result (Helper × Code)} (ok (h, done)) (ok (h', code)) = rw there at e in
        subst (λ q. Dialled port q.0 q.1) (ok-injective (h, done) (h', code) e1)
          (record { sockets = all; connected = λ _. f })
    by_state false s f g e =
        elim (if-cases (s == 0) (dial_new h port w w.socket) (await h port w.polled) (ok (h', code))
          e) [
            | inl (none_there, e1) ↦ by_socket w.socket n f e1
            | inr (some_there, e1) ↦
                await-Dialled h h' port s w.polled code all f g
                  (λ z. let t = (==_iff s 0).1 z in cc) e1
          ]
