-- ===== src/Manager/Relaying/Start.antt =====
-- lib/Manager.cpp, start_control_relaying. Another thread can change the status before each test of
-- it: `others` says to what, `none` for no change, and no change where the list has ended.
use usbproxy.Base.{
  ℕ, ◌+◌, Bool, true, false, ◌&&◌, ◌||◌, not, Option, none, some, List, [], ◌∷◌, ◌++◌, ◌==◌,
  if◌then◌else◌, set,
}
use usbproxy.Result.{Result, ok, fault, exits, spins}
use usbproxy.Descriptors.Endpoint.{Endpoint, byte}
use usbproxy.Criteria.{test_endpoint, test_device}
use usbproxy.Device.{Device, Memory, Proxy}
use usbproxy.Device.Load.{from_proxy}
use usbproxy.Manager.Filters.{PluggedIn}
use usbproxy.Manager.Relaying.{
  Call, Status, idle, setup, relaying, setup_abort, claim_interface, Manager, Outcome, returns,
  crashed, waits, log, on_interfaces, stop_relaying, ending,
}

pub record Run : Type 0 where
  pub manager : Manager
  pub others : List (Option Status)

-- What the manager does not decide: the codes of `connect` of both proxies, the device proxy, and
-- the memory of the new device.
pub record World : Type 0 where
  pub device_codes : List ℕ
  pub host_codes : List ℕ
  pub proxy : Proxy
  pub memory : Memory

abbrev pub interfere : Manager → Option Status → Manager
interfere m none = m
interfere m (some s) = record m { status = s }

-- A test of the status, with what the other threads have done before it.
abbrev pub observe : Manager → List (Option Status) → Run
observe m [] = record { manager = m; others = [] }
observe m (o ∷ os) = record { manager = interfere m o; others = os }

abbrev pub is_setup : Status → Bool
is_setup setup = true
is_setup _ = false

-- `if (status!=USBM_SETUP) {stop_relaying();return;}`
unfoldable pub unless_stopped : Run → (Run → Outcome) → Outcome
unless_stopped r next =
    let r' = observe r.manager r.others in
    if is_setup r'.manager.status then next r' else stop_relaying r'.manager

abbrev pub etimedout : ℕ
etimedout = 110

abbrev pub enodev : ℕ
enodev = 19

-- A loop that connects while the code says to try again and the status is that of the setup.
unfoldable pub connect : (ℕ → Bool) → List ℕ → Run → (ℕ → Run → Outcome) → Outcome
connect again [] r next = waits
connect again (code ∷ codes) r next =
    let r' = observe r.manager r.others in
    let more = connect again codes r' next in
    if again code then (if is_setup r'.manager.status then more else next code r') else next code r

-- The endpoint object of endpoint 0. The last two bytes, which are not set, are not read.
abbrev pub endpoint0 : Device → Endpoint
endpoint0 d = record { descriptor = 7 ∷ 5 ∷ 0 ∷ 0 ∷ byte d.descriptor 7 ∷ 0 ∷ 0 ∷ 0 ∷ 0 ∷ [] }

unfoldable pub is_for_control : Device → PluggedIn → Bool
is_for_control d f = test_device f.device d.descriptor && test_endpoint f.endpoint (endpoint0 d)

-- The bodies of the loops over the filters and the injectors, behind their test of the status.
abbrev pub add_filter : Device → PluggedIn → Run → Run
add_filter d f r = record r {
  manager = record r.manager {
    control_filters =
        if is_for_control d f
        then r.manager.control_filters ++ (f ∷ [])
        else r.manager.control_filters;
  };
}

abbrev pub add_injector : Device → PluggedIn → Run → Run
add_injector d f r = record r {
  manager = record r.manager {
    control_injectors =
        if is_for_control d f
        then r.manager.control_injectors ++ (f ∷ [])
        else r.manager.control_injectors;
  };
}

abbrev pub add_thread : Run → Run
add_thread r = record r {
  manager = record r.manager { injector_threads = r.manager.injector_threads + 1 };
}

unfoldable pub attach_filters : Device → List PluggedIn → Run → (Run → Outcome) → Outcome
unfolding is_for_control unless_stopped
attach_filters d [] r next = next r
attach_filters d (f ∷ fs) r next =
    unless_stopped r (λ s. attach_filters d fs (add_filter d f s) next)

unfoldable pub attach_injectors : Device → List PluggedIn → Run → (Run → Outcome) → Outcome
unfolding is_for_control unless_stopped
attach_injectors d [] r next = next r
attach_injectors d (f ∷ fs) r next =
    unless_stopped r (λ s. attach_injectors d fs (add_injector d f s) next)

-- One thread for each injector.
unfoldable pub start_injectors : List PluggedIn → Run → (Run → Outcome) → Outcome
unfolding unless_stopped
start_injectors [] r next = next r
start_injectors (f ∷ fs) r next = unless_stopped r (λ s. start_injectors fs (add_thread s) next)

-- The threads of endpoint 0.
abbrev pub with_reader : Manager → Manager
with_reader m = record m {
  threads = record m.threads { out_readers = set m.threads.out_readers 0 true };
}

abbrev pub with_writer : Manager → Manager
with_writer m = record m {
  threads = record m.threads { out_writers = set m.threads.out_writers 0 true };
}

abbrev pub write_on : Run → Run
write_on r = record r { manager = with_writer r.manager }

abbrev pub relay : Run → Outcome
relay r = returns (record r.manager { status = relaying })

-- From the result of the host's `connect` on.
unfoldable pub start_threads : ℕ → Run → Outcome
unfolding unless_stopped
start_threads code r =
    if not (code == 0)
    then stop_relaying (record r.manager { status = setup_abort })
    else (let r1 = observe (with_reader r.manager) r.others in
        if not (is_setup r1.manager.status)
        then stop_relaying (record r1.manager { status = setup_abort })
        else unless_stopped (write_on r1) relay)

-- From the new device on.
abbrev pub with_calls : Device → List Call → Run → Run
with_calls d calls r = record r { manager = log (record r.manager { device = some d }) calls }

-- The relays of endpoint 0 are new.
abbrev pub with_relays : Run → Run
with_relays r = record r {
  manager = record r.manager { control_filters = []; control_injectors = [] };
}

-- From the relays on.
unfoldable pub set_up : World → Device → Run → Outcome
unfolding attach_filters attach_injectors start_injectors connect start_threads
set_up w d r = attach_filters d r.manager.filters (with_relays r) λ s.
    attach_injectors d s.manager.injectors s λ t.
      start_injectors t.manager.injectors t
        λ u. connect (λ code. code == etimedout) w.host_codes u start_threads

unfoldable pub start_device : World → Device → Run → Outcome
unfolding unless_stopped set_up
start_device w d r =
    ending (on_interfaces claim_interface d)
      λ calls. unless_stopped (with_calls d calls r) λ s. unless_stopped s λ t. set_up w d t

-- A device that cannot be read ends the program or runs into a fault.
abbrev pub with_device : Result Device → (Device → Outcome) → Run → Outcome
with_device (ok d) next r = next d
with_device fault next r = crashed
with_device exits next r = Outcome.exited r.manager
with_device spins next r = waits

unfoldable pub start_control_relaying : World → List (Option Status) → Manager → Outcome
unfolding connect start_device
start_control_relaying w others m =
    connect (λ code. code == etimedout || code == enodev) w.device_codes
      (record { manager = record m { status = setup }; others = others })
      (λ code r.
        if not (code == 0)
        then returns (record r.manager { status = idle })
        else with_device (from_proxy w.memory w.proxy) (λ d. start_device w d r) r)
