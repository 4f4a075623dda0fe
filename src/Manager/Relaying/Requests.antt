-- ===== src/Manager/Relaying/Requests.antt =====
-- How often each relay is asked to stop.
use usbproxy.Base.{
  ℕ, zero, suc, ◌+◌, ◌≡◌, refl, ap, subst, ◌∙◌, ◌≢◌, inl, inr, Bool, true, false, ◌&&◌, Option,
  none, some, List, [], ◌∷◌, ◌++◌, append-nil, arith, ltb, leb, ◌==◌, if◌then◌else◌, ==_iff,
  Bool-cases,
}
use usbproxy.Manager.Relaying.{
  disconnect_eps, signal, join_injectors, log, byte, host_speeds, ok, exited,
  get_active_configuration, device_speeds, Manager, on_interfaces, claim_interface,
  release_interface, Configuration, stop_injectors, each_interface, stop_injector, Device,
  exit_with, stop_if, is_joinable, stop_calls, Threads, Relay, in_reader, in_writer, out_reader,
  out_writer, Call, stop,
}

abbrev pub is_same : Relay → Relay → Bool
is_same in_reader in_reader = true
is_same in_writer in_writer = true
is_same out_reader out_reader = true
is_same out_writer out_writer = true
is_same _ _ = false

-- The number of requests to one relay that it stop.
abbrev pub requests : Relay → ℕ → List Call → ℕ
requests relay i [] = 0
requests relay i (stop other j ∷ calls) =
    (if is_same relay other && i == j then 1 else 0) + requests relay i calls
requests relay i (_ ∷ calls) = requests relay i calls

abbrev pub one_if : Bool → ℕ
one_if b = if b then 1 else 0

requests-stop_if :
    (t : Threads) (relay other : Relay) (i j : ℕ) (rest : List Call)
    → requests relay j (stop_if t other i rest)
      ≡ one_if (is_joinable t other i && (is_same relay other && j == i)) + requests relay j rest
requests-stop_if t relay other i j rest = elim (Bool-cases (is_joinable t other i)) [
  | inl joinable ↦ rw joinable refl
  | inr other_case ↦ rw other_case (omega arith)
]

-- The four relays of one endpoint.
requests-round :
    (t : Threads) (relay : Relay) (i j : ℕ) (rest : List Call)
    → requests relay j (
        stop_if t in_reader i
          (stop_if t in_writer i (stop_if t out_reader i (stop_if t out_writer i rest))))
      ≡ one_if (is_joinable t relay i && j == i) + requests relay j rest
requests-round t relay i j rest =
    let a =
      requests-stop_if t relay in_reader i j
        (stop_if t in_writer i (stop_if t out_reader i (stop_if t out_writer i rest))) in
    let b =
      requests-stop_if t relay in_writer i j
        (stop_if t out_reader i (stop_if t out_writer i rest)) in
    let c = requests-stop_if t relay out_reader i j (stop_if t out_writer i rest) in
    let d = requests-stop_if t relay out_writer i j rest in
    a
    ∙ ap (λ n. one_if (is_joinable t in_reader i && (is_same relay in_reader && j == i)) + n)
        (b
          ∙ ap (λ n. one_if (is_joinable t in_writer i && (is_same relay in_writer && j == i)) + n)
              (c
                ∙ ap
                    (λ n.
                      one_if (is_joinable t out_reader i && (is_same relay out_reader && j == i))
                      + n)
                    d))
    ∙ sum relay
  where
    never : (b : Bool) → one_if (b && false) ≡ 0
    never true = refl
    never false = refl

    sum :
        (relay : Relay)
        → one_if (is_joinable t in_reader i && (is_same relay in_reader && j == i))
            + (one_if (is_joinable t in_writer i && (is_same relay in_writer && j == i))
                + (one_if (is_joinable t out_reader i && (is_same relay out_reader && j == i))
                    + (one_if (is_joinable t out_writer i && (is_same relay out_writer && j == i))
                        + requests relay j rest)))
          ≡ one_if (is_joinable t relay i && j == i) + requests relay j rest
    sum in_reader = omega (
      arith,
      never (is_joinable t in_writer i),
      never (is_joinable t out_reader i),
      never (is_joinable t out_writer i),
    )
    sum in_writer = omega (
      arith,
      never (is_joinable t in_reader i),
      never (is_joinable t out_reader i),
      never (is_joinable t out_writer i),
    )
    sum out_reader = omega (
      arith,
      never (is_joinable t in_reader i),
      never (is_joinable t in_writer i),
      never (is_joinable t out_writer i),
    )
    sum out_writer = omega (
      arith,
      never (is_joinable t in_reader i),
      never (is_joinable t in_writer i),
      never (is_joinable t out_reader i),
    )

range_empty : (b : Bool) (i j : ℕ) → 0 ≡ one_if (b && (leb i j && ltb j (i + 0)))
range_empty true i j = ground arith
range_empty false i j = refl

range_first :
    (b : Bool) (i n : ℕ)
    → one_if (b && i == i) + one_if (b && (leb (suc i) i && ltb i (suc i + n)))
      ≡ one_if (b && (leb i i && ltb i (i + suc n)))
range_first true i n = ground arith
range_first false i n = refl

range_later :
    (b c : Bool) (i j n : ℕ)
    → i ≢ j
    → one_if (c && j == i) + one_if (b && (leb (suc i) j && ltb j (suc i + n)))
      ≡ one_if (b && (leb i j && ltb j (i + suc n)))
range_later true true i j n h = ground (arith, h)
range_later true false i j n h = ground (arith, h)
range_later false true i j n h = ground (arith, h)
range_later false false i j n h = refl

pub requests-stop_calls :
    (n i j : ℕ) (t : Threads) (relay : Relay)
    → requests relay j (stop_calls n i t)
      ≡ one_if (is_joinable t relay j && (leb i j && ltb j (i + n)))
unfolding stop_calls
requests-stop_calls zero i j t relay = range_empty (is_joinable t relay j) i j
requests-stop_calls (suc n) i j t relay =
    requests-round t relay i j (stop_calls n (suc i) t)
    ∙ ap (λ k. one_if (is_joinable t relay i && j == i) + k)
        (requests-stop_calls n (suc i) j t relay)
    ∙ elim (Bool-cases (i == j)) [
      | inl same ↦
          subst
            (λ k.
              one_if (is_joinable t relay i && k == i)
                + one_if (is_joinable t relay k && (leb (suc i) k && ltb k (suc i + n)))
              ≡ one_if (is_joinable t relay k && (leb i k && ltb k (i + suc n))))
            ((==_iff i j).0 same) (range_first (is_joinable t relay i) i n)
      | inr other ↦
          range_later (is_joinable t relay j) (is_joinable t relay i) i j n (ground (arith, other))
    ]

pub requests-append :
    (relay : Relay) (j : ℕ) (xs ys : List Call)
    → requests relay j (xs ++ ys) ≡ requests relay j xs + requests relay j ys
requests-append relay j [] ys = omega arith
requests-append relay j (stop other i ∷ xs) ys = omega (arith, requests-append relay j xs ys)
requests-append relay j (stop_injector i ∷ xs) ys = requests-append relay j xs ys
requests-append relay j (join_injectors ∷ xs) ys = requests-append relay j xs ys
requests-append relay j (signal ∷ xs) ys = requests-append relay j xs ys
requests-append relay j (disconnect_eps ∷ xs) ys = requests-append relay j xs ys
requests-append relay j (claim_interface i ∷ xs) ys = requests-append relay j xs ys
requests-append relay j (release_interface i ∷ xs) ys = requests-append relay j xs ys
requests-append relay j (device_speeds a b c ∷ xs) ys = requests-append relay j xs ys
requests-append relay j (host_speeds a b c ∷ xs) ys = requests-append relay j xs ys

pub requests-each_interface :
    (relay : Relay) (j n i : ℕ) → requests relay j (each_interface release_interface n i) ≡ 0
unfolding each_interface
requests-each_interface relay j zero i = refl
requests-each_interface relay j (suc n) i = requests-each_interface relay j n (suc i)

pub requests-stop_injectors :
    (relay : Relay) (j n i : ℕ) → requests relay j (stop_injectors n i) ≡ 0
unfolding stop_injectors
requests-stop_injectors relay j zero i = refl
requests-stop_injectors relay j (suc n) i = requests-stop_injectors relay j n (suc i)

-- The call of `exit` is reached, with so many interfaces released.
abbrev pub HasActive : Option Device → ℕ → Type 0
HasActive none n = n ≡ 0
HasActive (some d) n =
    (c : Configuration) × (get_active_configuration d ≡ ok (some c)) × (byte c.descriptor 4 ≡ n)

pub exit_with-released :
    (d : Option Device) (n : ℕ) (m : Manager)
    → HasActive d n
    → exit_with d m ≡ exited (log m (each_interface release_interface n 0))
unfolding exit_with on_interfaces each_interface
exit_with-released none n m e = rw (e, append-nil m.calls) refl
exit_with-released (some d) n m (c, active, count) = rw active (rw count refl)
