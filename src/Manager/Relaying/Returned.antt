-- ===== src/Manager/Relaying/Returned.antt =====
-- The state in which the start of relaying returns, whatever other threads do to the status.
use usbproxy.Base.{
  ℕ, ◌+◌, ◌≡◌, refl, sym, ap, subst, ◌∙◌, ◌||◌, not, Option, some, List, ◌++◌, ◌==◌, if◌then◌else◌,
  length,
}
use usbproxy.Result.{Result, ok, fault, exits, spins}
use usbproxy.Device.{Device}
use usbproxy.Device.Load.{from_proxy}
use usbproxy.Manager.Filters.Selected.{chosen}
use usbproxy.Manager.Relaying.{
  setup, Result, Status, returns, Outcome, idle, relaying, Call, claim_interface, Manager, log,
  on_interfaces,
}
use usbproxy.Manager.Relaying.Start.{
  enodev, with_device, start_control_relaying, Run, World, unless_stopped, connect, is_for_control,
  attach_injectors, start_injectors, with_reader, with_writer, with_calls, with_relays, set_up,
  start_threads, start_device, etimedout,
}
use usbproxy.Manager.Relaying.Ends.{
  if-Ends, Ends, ending-Ends, unless_stopped-Ends, connect-Ends, attach_filters-Ends,
  attach_injectors-Ends, start_injectors-Ends, start_threads-Ends,
}

-- Relaying for a device: the threads of endpoint 0 run, with the filters and injectors that ask for
-- the device and for endpoint 0, and there is a thread for each injector.
abbrev pub with_control : Device → Manager → Manager
with_control d m = record (with_writer (with_reader m)) {
  status = relaying;
  control_filters = chosen (is_for_control d) m.filters;
  control_injectors = chosen (is_for_control d) m.injectors;
  injector_threads = m.injector_threads + length m.injectors;
}

set_up-Ends :
    (P : Manager → Type 0) (w : World) (d : Device) (r : Run)
    → P (with_control d r.manager)
    → Ends P (set_up w d r)
unfolding set_up
set_up-Ends P w d r h =
    attach_filters-Ends P d r.manager.filters (with_relays r)
      (λ s. attach_injectors d s.manager.injectors s λ t.
        start_injectors t.manager.injectors t
          λ u. connect (λ code. code == etimedout) w.host_codes u start_threads)
      λ s e.
        attach_injectors-Ends P d s.manager.injectors s
          (λ t.
            start_injectors t.manager.injectors t
              λ u. connect (λ code. code == etimedout) w.host_codes u start_threads)
          λ t f.
            start_injectors-Ends P t.manager.injectors t
              (λ u. connect (λ code. code == etimedout) w.host_codes u start_threads)
              λ u g.
                connect-Ends P (λ code. code == etimedout) w.host_codes u start_threads
                  λ c v k. start_threads-Ends P c v (
                    subst P
                      (sym (
                        ap
                          (λ (q : Manager). record (with_writer (with_reader q)) {
                            status = relaying;
                          })
                          k
                        ∙ ap
                            (λ (q : Manager). record (with_writer (with_reader q)) {
                              status = relaying;
                            })
                            g
                        ∙ ap
                            (λ (q : Manager). record (with_writer (with_reader q)) {
                              status = relaying;
                              injector_threads = q.injector_threads + length q.injectors;
                            })
                            f
                        ∙ ap
                            (λ (q : Manager). record (with_writer (with_reader q)) {
                              status = relaying;
                              control_injectors =
                                  q.control_injectors ++ chosen (is_for_control d) q.injectors;
                              injector_threads = q.injector_threads + length q.injectors;
                            })
                            e))
                      h)

-- The manager that relays for a device, having claimed interfaces.
abbrev pub relays : Device → List Call → Manager → Manager
relays d calls m = with_control d (log (record m { device = some d }) calls)

start_device-Ends :
    (P : Manager → Type 0) (w : World) (d : Device) (r : Run)
    → ((calls : List Call)
        → on_interfaces claim_interface d ≡ ok calls
        → P (relays d calls r.manager))
    → Ends P (start_device w d r)
unfolding start_device
start_device-Ends P w d r h =
    ending-Ends P (on_interfaces claim_interface d)
      (λ calls. unless_stopped (with_calls d calls r) λ s. unless_stopped s λ t. set_up w d t)
      λ calls made.
        unless_stopped-Ends P (with_calls d calls r) (λ s. unless_stopped s λ t. set_up w d t)
          λ s e.
            unless_stopped-Ends P s (λ t. set_up w d t)
              λ t f. set_up-Ends P w d t (
                subst P
                  (sym (
                    ap (λ (q : Manager). with_control d q) f
                    ∙ ap (λ (q : Manager). with_control d q) e))
                  (h calls made))

-- What there is when the start returns.
pub data Returned (w : World) (m m' : Manager) : Type 0 where
  unconnected : m' ≡ record m { status = idle } → Returned w m m'
  connected :
      (d : Device) (calls : List Call)
      → from_proxy w.memory w.proxy ≡ ok d
      → on_interfaces claim_interface d ≡ ok calls
      → m' ≡ relays d calls m
      → Returned w m m'

Ends-returns : (P : Manager → Type 0) (o : Outcome) (m : Manager) → o ≡ returns m → Ends P o → P m
Ends-returns P o m e h = subst (λ x. Ends P x) e h

-- A start that returns has either not connected to the device, and is idle with all else as it was,
-- or it relays: it has read the device, claimed the interfaces of its active configuration, given
-- the relays of endpoint 0 exactly the filters and injectors that ask for them, in their order, and
-- started the two threads of endpoint 0 and one for each injector. So it is whatever the other
-- threads do to the status, and however often the proxies have to be asked again.
pub start_control_relaying-Returned :
    (w : World) (others : List (Option Status)) (m m' : Manager)
    → start_control_relaying w others m ≡ returns m'
    → Returned w m m'
unfolding start_control_relaying
start_control_relaying-Returned w others m m' h =
    let P = λ (q : Manager). Returned w m q in
    let next = λ (code : ℕ) (r : Run).
      (if not (code == 0)
        then returns (record r.manager { status = idle })
        else with_device (from_proxy w.memory w.proxy) (λ d. start_device w d r) r) in
    Ends-returns P (start_control_relaying w others m) m' h (
      connect-Ends P (λ code. code == etimedout || code == enodev) w.device_codes
        (record { manager = record m { status = setup }; others = others }) next
        λ code r e.
          if-Ends P (not (code == 0)) (returns (record r.manager { status = idle }))
            (with_device (from_proxy w.memory w.proxy) (λ d. start_device w d r) r)
            (λ _. unconnected (ap (λ (q : Manager). record q { status = idle }) e))
            (λ _. loaded (from_proxy w.memory w.proxy) r e refl))
  where
    loaded :
        (made : Result Device) (r : Run)
        → r.manager ≡ record m { status = r.manager.status }
        → from_proxy w.memory w.proxy ≡ made
        → Ends (λ q. Returned w m q) (with_device made (λ d. start_device w d r) r)
    loaded (ok d) r e same =
        start_device-Ends (λ q. Returned w m q) w d r
          (λ calls claimed.
            connected d calls same claimed (ap (λ (q : Manager). relays d calls q) e))
    loaded fault r e same = tt
    loaded exits r e same = tt
    loaded spins r e same = tt
