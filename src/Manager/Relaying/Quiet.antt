-- ===== src/Manager/Relaying/Quiet.antt =====
-- The start of relaying where no other thread changes the status.
use usbproxy.Base.{
  ℕ, zero, suc, ◌+◌, ◌≡◌, refl, sym, ap, ◌∙◌, Bool, true, false, ◌||◌, not, List, [], ◌∷◌, ◌++◌,
  append-nil, arith, ◌==◌, if◌then◌else◌, length, replicate,
}
use usbproxy.Result.{ok}
use usbproxy.Device.{Device}
use usbproxy.Device.Load.{from_proxy}
use usbproxy.Manager.Filters.{PluggedIn}
use usbproxy.Manager.Filters.Selected.{chosen, behind}
use usbproxy.Manager.Relaying.{
  idle, setup, relaying, Call, claim_interface, Manager, Outcome, returns, on_interfaces, ending,
  stop_relaying,
}
use usbproxy.Manager.Relaying.Start.{
  Run, World, is_setup, unless_stopped, connect, is_for_control, add_filter, add_injector,
  add_thread, attach_filters, attach_injectors, start_injectors, with_reader, with_writer,
  with_calls, with_relays, set_up, relay, write_on, start_threads, start_device, with_device,
  start_control_relaying, etimedout, enodev,
}
use usbproxy.Manager.Relaying.Returned.{relays, with_control}

-- A run that no other thread disturbs.
abbrev quiet : Manager → Run
quiet m = record { manager = m; others = [] }

if_true {ℓ} : {A : Type ℓ} (b : Bool) (x y : A) → b ≡ true → (if b then x else y) ≡ x
if_true true x y h = refl
if_true false x y h = cc

if_false {ℓ} : {A : Type ℓ} (b : Bool) (x y : A) → b ≡ false → (if b then x else y) ≡ y
if_false true x y h = cc
if_false false x y h = refl

unless_stopped-quiet :
    (m : Manager) (next : Run → Outcome)
    → is_setup m.status ≡ true
    → unless_stopped (quiet m) next ≡ next (quiet m)
unfolding unless_stopped
unless_stopped-quiet m next s = if_true (is_setup m.status) (next (quiet m)) (stop_relaying m) s

-- A connection comes about after any number of attempts that are to be made again.
connect-quiet :
    (again : ℕ → Bool) (n code : ℕ) (m : Manager) (next : ℕ → Run → Outcome)
    → is_setup m.status ≡ true
    → again code ≡ true
    → again 0 ≡ false
    → connect again (replicate n code ++ (0 ∷ [])) (quiet m) next ≡ next 0 (quiet m)
unfolding connect
connect-quiet again zero code m next s a z = if_false (again 0) _ (next 0 (quiet m)) z
connect-quiet again (suc n) code m next s a z =
    let more = connect again (replicate n code ++ (0 ∷ [])) (quiet m) next in
    if_true (again code) (if is_setup m.status then more else next code (quiet m))
      (next code (quiet m)) a
    ∙ if_true (is_setup m.status) more (next code (quiet m)) s
    ∙ connect-quiet again n code m next s a z

attach_filters-quiet :
    (d : Device) (fs : List PluggedIn) (m : Manager) (next : Run → Outcome)
    → is_setup m.status ≡ true
    → attach_filters d fs (quiet m) next
      ≡ next
          (quiet (record m { control_filters = m.control_filters ++ chosen (is_for_control d) fs }))
unfolding attach_filters
attach_filters-quiet d [] m next s =
    ap (λ l. next (quiet (record m { control_filters = l }))) (sym (append-nil m.control_filters))
attach_filters-quiet d (f ∷ fs) m next s =
    unless_stopped-quiet m (λ r. attach_filters d fs (add_filter d f r) next) s
    ∙ attach_filters-quiet d fs (add_filter d f (quiet m)).manager next s
    ∙ ap (λ l. next (quiet (record m { control_filters = l })))
        (behind m.control_filters f (chosen (is_for_control d) fs) (is_for_control d f))

attach_injectors-quiet :
    (d : Device) (fs : List PluggedIn) (m : Manager) (next : Run → Outcome)
    → is_setup m.status ≡ true
    → attach_injectors d fs (quiet m) next
      ≡ next (
          quiet
            (record m { control_injectors = m.control_injectors ++ chosen (is_for_control d) fs }))
unfolding attach_injectors
attach_injectors-quiet d [] m next s =
    ap (λ l. next (quiet (record m { control_injectors = l })))
      (sym (append-nil m.control_injectors))
attach_injectors-quiet d (f ∷ fs) m next s =
    unless_stopped-quiet m (λ r. attach_injectors d fs (add_injector d f r) next) s
    ∙ attach_injectors-quiet d fs (add_injector d f (quiet m)).manager next s
    ∙ ap (λ l. next (quiet (record m { control_injectors = l })))
        (behind m.control_injectors f (chosen (is_for_control d) fs) (is_for_control d f))

start_injectors-quiet :
    (fs : List PluggedIn) (m : Manager) (next : Run → Outcome)
    → is_setup m.status ≡ true
    → start_injectors fs (quiet m) next
      ≡ next (quiet (record m { injector_threads = m.injector_threads + length fs }))
unfolding start_injectors
start_injectors-quiet [] m next s =
    let none_more : m.injector_threads ≡ m.injector_threads + 0 = omega arith in
    ap (λ n. next (quiet (record m { injector_threads = n }))) none_more
start_injectors-quiet (f ∷ fs) m next s =
    let sum : m.injector_threads + 1 + length fs ≡ m.injector_threads + suc (length fs) =
      omega arith in
    unless_stopped-quiet m (λ r. start_injectors fs (add_thread r) next) s
    ∙ start_injectors-quiet fs (add_thread (quiet m)).manager next s
    ∙ ap (λ n. next (quiet (record m { injector_threads = n }))) sum

start_threads-quiet :
    (m : Manager)
    → is_setup m.status ≡ true
    → start_threads 0 (quiet m)
      ≡ returns (record (with_writer (with_reader m)) { status = relaying })
unfolding start_threads
start_threads-quiet m s =
    let read = with_reader m in
    if_false (not (is_setup m.status)) _ (unless_stopped (write_on (quiet read)) relay) (ap not s)
    ∙ unless_stopped-quiet (with_writer read) relay s

-- The host is reached after `k` attempts that timed out.
set_up-quiet :
    (w : World) (d : Device) (m : Manager) (k : ℕ)
    → is_setup m.status ≡ true
    → w.host_codes ≡ replicate k etimedout ++ (0 ∷ [])
    → set_up w d (quiet m) ≡ returns (with_control d m)
unfolding set_up
set_up-quiet w d m k s codes =
    let last = λ (u : Run). connect (λ code. code == etimedout) w.host_codes u start_threads in
    let threads = λ (t : Run). start_injectors t.manager.injectors t last in
    let m1 = record m {
      control_filters = chosen (is_for_control d) m.filters;
      control_injectors = [];
    } in
    let m2 = record m1 { control_injectors = chosen (is_for_control d) m.injectors } in
    let m3 = record m2 { injector_threads = m.injector_threads + length m.injectors } in
    attach_filters-quiet d m.filters (with_relays (quiet m)).manager
      (λ r. attach_injectors d r.manager.injectors r threads) s
    ∙ attach_injectors-quiet d m.injectors m1 threads s
    ∙ start_injectors-quiet m.injectors m2 last s
    ∙ ap (λ l. connect (λ code. code == etimedout) l (quiet m3) start_threads) codes
    ∙ connect-quiet (λ code. code == etimedout) k etimedout m3 start_threads s refl refl
    ∙ start_threads-quiet m3 s

-- If no other thread changes the status, and the device and then the host can be reached after any
-- number of attempts that timed out, the manager comes to relay, where the device can be read and
-- has an active configuration.
pub start_control_relaying-relays :
    (w : World) (m : Manager) (d : Device) (calls : List Call) (n k : ℕ)
    → w.device_codes ≡ replicate n etimedout ++ (0 ∷ [])
    → w.host_codes ≡ replicate k etimedout ++ (0 ∷ [])
    → from_proxy w.memory w.proxy ≡ ok d
    → on_interfaces claim_interface d ≡ ok calls
    → start_control_relaying w [] m ≡ returns (relays d calls m)
unfolding start_control_relaying start_device
start_control_relaying-relays w m d calls n k device host made claimed =
    let again = λ (code : ℕ). code == etimedout || code == enodev in
    let next = λ (code : ℕ) (r : Run).
      (if not (code == 0)
        then returns (record r.manager { status = idle })
        else with_device (from_proxy w.memory w.proxy) (λ d. start_device w d r) r) in
    let m0 = record m { status = setup } in
    let m1 = (with_calls d calls (quiet m0)).manager in
    ap (λ l. connect again l (quiet m0) next) device
    ∙ connect-quiet again n etimedout m0 next refl refl refl
    ∙ ap (λ r. with_device r (λ d. start_device w d (quiet m0)) (quiet m0)) made
    ∙ ap
        (λ r. ending r (λ calls.
          unless_stopped (with_calls d calls (quiet m0)) λ s. unless_stopped s λ t. set_up w d t))
        claimed
    ∙ unless_stopped-quiet m1 (λ s. unless_stopped s λ t. set_up w d t) refl
    ∙ unless_stopped-quiet m1 (λ t. set_up w d t) refl
    ∙ set_up-quiet w d m1 k refl host
