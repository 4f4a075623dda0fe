-- ===== src/Manager/Relaying/Stopped.antt =====
-- Which relays have been asked to stop when the program ends.
use usbproxy.Base.{
  ℕ, ◌+◌, ◌-◌, ◌≤◌, ◌<◌, ◌≡◌, refl, ap, ◌∙◌, ◌⊎◌, inl, inr, Bool, true, false, ◌&&◌, [], ◌∷◌, ◌++◌,
  arith, ltb, leb, if◌then◌else◌, length,
}
use usbproxy.Manager.Relaying.{
  stopping, reset, setup_abort, relaying, disconnect_eps, signal, join_injectors, stop_by,
  stop_relaying, stop_all, stop_eps, log, exited, Manager, release_interface, stop_injectors,
  each_interface, is_joinable, stop_calls, Relay,
}
use usbproxy.Manager.Relaying.Requests.{
  requests, one_if, requests-append, requests-stop_calls, requests-each_interface,
  requests-stop_injectors, HasActive, exit_with-released,
}

stop_eps-requests :
    (start n : ℕ) (m : Manager) (relay : Relay) (j : ℕ)
    → HasActive m.device n
    → start ≤ 16
    → (m' : Manager) × (stop_eps start m ≡ exited m')
      × (m'.status ≡ m.status)
      × (requests relay j m'.calls
          ≡ requests relay j m.calls
            + one_if (is_joinable m.threads relay j && (leb start j && ltb j 16)))
unfolding stop_eps
stop_eps-requests start n m relay j active h =
    let asked = stop_calls (16 - start) start m.threads in
    let more = asked ++ (signal ∷ disconnect_eps ∷ []) in
    let released = each_interface release_interface n 0 in
    let reach : start + (16 - start) ≡ 16 = omega arith in
    let counted : requests relay j asked
        ≡ one_if (is_joinable m.threads relay j && (leb start j && ltb j 16)) =
      requests-stop_calls (16 - start) start j m.threads relay
      ∙ ap (λ k. one_if (is_joinable m.threads relay j && (leb start j && ltb j k))) reach in
    (
      log (log m more) released,
      exit_with-released m.device n (log m more) active,
      refl,
      omega (
        arith,
        requests-append relay j (m.calls ++ more) released,
        requests-append relay j m.calls more,
        requests-append relay j asked (signal ∷ disconnect_eps ∷ []),
        requests-each_interface relay j n 0,
        counted,
      ),
    )

-- Behind its `switch` `stop_relaying` asks the injectors and all endpoints.
stop_all-requests :
    (n : ℕ) (m : Manager) (relay : Relay) (j : ℕ)
    → HasActive m.device n
    → (m' : Manager) × (stop_all m ≡ exited m')
      × (m'.status ≡ m.status)
      × (requests relay j m'.calls
          ≡ requests relay j m.calls
            + one_if (is_joinable m.threads relay j && (leb 0 j && ltb j 16)))
unfolding stop_all
stop_all-requests n m relay j active =
    let before = stop_injectors (length m.injectors) 0 ++ (join_injectors ∷ []) in
    let mid = record m { injector_threads = 0; calls = m.calls ++ before } in
    let (m', ends, same, count) = stop_eps-requests 0 n mid relay j active (omega arith) in
    (
      m',
      ends,
      same,
      omega (
        arith,
        count,
        requests-append relay j m.calls before,
        requests-append relay j (stop_injectors (length m.injectors) 0) (join_injectors ∷ []),
        requests-stop_injectors relay j (length m.injectors) 0,
      ),
    )

-- When relaying is stopped from one of the states relaying, setup aborted and reset, with a device
-- that has an active configuration or no device, the program ends in the state stopping, and each
-- relay thread of the sixteen endpoints has then been asked to stop once if it runs, and not at all
-- if it does not.
pub stop_relaying-requests :
    (n : ℕ) (m : Manager) (relay : Relay) (j : ℕ)
    → HasActive m.device n
    → (m.status ≡ relaying) ⊎ ((m.status ≡ setup_abort) ⊎ (m.status ≡ reset))
    → j < 16
    → (m' : Manager) × (stop_relaying m ≡ exited m')
      × (m'.status ≡ stopping)
      × (requests relay j m'.calls
          ≡ requests relay j m.calls + (if is_joinable m.threads relay j then 1 else 0))
unfolding stop_relaying stop_by
stop_relaying-requests n m relay j active state h =
    let (m', ends, same, count) =
      stop_all-requests n (record m { status = stopping }) relay j active in
    let stops : stop_by m.status m ≡ stop_all (record m { status = stopping }) = elim state [
      | inl a ↦ ap (λ s. stop_by s m) a
      | inr (inl b) ↦ ap (λ s. stop_by s m) b
      | inr (inr c) ↦ ap (λ s. stop_by s m) c
    ] in
    (
      m',
      stops ∙ ends,
      same,
      count
          ∙ ap (λ b. requests relay j m.calls + one_if b) (inside (is_joinable m.threads relay j)),
    )
  where
    inside : (b : Bool) → (b && (leb 0 j && ltb j 16)) ≡ b
    inside true = ground (arith, h)
    inside false = refl
