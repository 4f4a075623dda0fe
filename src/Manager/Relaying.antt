-- ===== src/Manager/Relaying.antt =====
-- lib/Manager.cpp: how relaying is stopped, the notifications, and `setConfig`.
pub mod Ends
pub mod Quiet
pub mod Requests
pub mod Returned
pub mod Configured
pub mod Start
pub mod Stopped
use usbproxy.Base.{
  fun_ext, ℕ, zero, suc, ◌+◌, ◌-◌, ◌*◌, ◌/◌, ◌%◌, ◌^◌, ◌≤◌, ◌<◌, min, max, ◌≡◌, refl, sym, ap, ap₂,
  subst, ◌∙◌, ◌≢◌, ◌↔◌, ◌⊎◌, inl, inr, Bool, true, false, ◌&&◌, ◌||◌, not, Option, none, some, List,
  [], ◌∷◌, ◌++◌, map, append-nil, append_assoc, arith, ltb, leb, ◌==◌, if◌then◌else◌, ltb→lt,
  lt→ltb, leb→le, le→leb, lt→leb, ==_iff, ==_refl, ==_ne, if-cases, below, below-holds, Bool-cases,
  Option-cases, length, get_elem?, get_or, set, take, drop, replicate, length-append, length-set,
  get_elem?-set_self, get_elem?-set_ne, get_elem?-none, get_elem?-some, get_elem?-append_left,
  get_elem?-append_right, get_elem?-inside, get_elem?-replicate, get_elem?-take, take-append_length,
  drop-append_length, take-append_left, take_all, length-take, length-drop, length-replicate, All,
  All-append, All-get_elem?, All-set, All-replicate, get_elem?-at, set-at, Bytes, u8, u16, has,
}
use usbproxy.Result.{Result, ok, fault, exits, spins, ◌>>=◌}
use usbproxy.Descriptors.Endpoint.{byte}
use usbproxy.Descriptors.Configuration.{Configuration}
use usbproxy.DeviceQualifier
use usbproxy.DeviceQualifier.{DeviceQualifier}
use usbproxy.Device.{Device}
use usbproxy.Device.Access.{get_configuration, get_active_configuration, set_active_configuration}
use usbproxy.Manager.Filters.{PluggedIn}

pub data Status : Type 0 where
  idle setup relaying stopping setup_abort reset : Status

pub data Relay : Type 0 where
  in_reader in_writer out_reader out_writer : Relay

-- What the manager calls outside itself, in order. `stop` asks a relay to stop. `speeds` is `setConfig` of a proxy with the
-- configurations at full and at high speed; `none` is the null pointer.
pub data Call : Type 0 where
  stop : Relay → ℕ → Call
  stop_injector : ℕ → Call
  join_injectors signal disconnect_eps : Call
  claim_interface release_interface : ℕ → Call
  device_speeds host_speeds : Option Configuration → Option Configuration → Bool → Call

-- Which relay threads are joinable, by endpoint.
pub record Threads : Type 0 where
  pub in_readers : List Bool
  pub in_writers : List Bool
  pub out_readers : List Bool
  pub out_writers : List Bool

-- `control_filters` and `control_injectors` are those of the relays of endpoint 0;
-- `injector_threads` is the number of threads.
pub record Manager : Type 0 where
  pub status : Status
  pub configuration_number : ℕ
  pub device : Option Device
  pub filters : List PluggedIn
  pub injectors : List PluggedIn
  pub control_filters : List PluggedIn
  pub control_injectors : List PluggedIn
  pub injector_threads : ℕ
  pub threads : Threads
  pub calls : List Call

-- How a method ends: it returns, it calls `exit` in a state, it uses a null pointer or runs into a
-- fault, or it goes on waiting for a proxy.
pub data Outcome : Type 0 where
  returns : Manager → Outcome
  exited : Manager → Outcome
  crashed : Outcome
  waits : Outcome

abbrev pub log : Manager → List Call → Manager
log m calls = record m { calls = m.calls ++ calls }

unfoldable pub is_joinable : Threads → Relay → ℕ → Bool
is_joinable t in_reader i = get_or t.in_readers i false
is_joinable t in_writer i = get_or t.in_writers i false
is_joinable t out_reader i = get_or t.out_readers i false
is_joinable t out_writer i = get_or t.out_writers i false

-- `if (threads[i].joinable()) {relays[i]->please_stop();}`, in front of what comes after it.
abbrev pub stop_if : Threads → Relay → ℕ → List Call → List Call
stop_if t relay i rest = if is_joinable t relay i then stop relay i ∷ rest else rest

-- The first loop of `stopEps`, for `n` more endpoints.
unfoldable pub stop_calls : ℕ → ℕ → Threads → List Call
unfolding is_joinable
stop_calls zero i t = []
stop_calls (suc n) i t = stop_if t in_reader i (
    stop_if t in_writer i
      (stop_if t out_reader i (stop_if t out_writer i (stop_calls n (suc i) t))))

-- A loop over the interfaces of a configuration.
unfoldable pub each_interface : (ℕ → Call) → ℕ → ℕ → List Call
each_interface call zero i = []
each_interface call (suc n) i = call i ∷ each_interface call n (suc i)

-- The interfaces of the active configuration, whose pointer is not tested.
unfoldable pub on_interfaces : (ℕ → Call) → Device → Result (List Call)
unfolding each_interface
on_interfaces call d = get_active_configuration d >>= λ slot. elim slot [
  | none ↦ fault
  | some c ↦ ok (each_interface call (byte c.descriptor 4) 0)
]

-- A fault, or a loop that never ends, inside a method.
abbrev pub ending : Result (List Call) → (List Call → Outcome) → Outcome
ending (ok calls) next = next calls
ending fault next = crashed
ending exits next = crashed
ending spins next = waits

-- What `stopEps` does with the device before it exits.
unfoldable pub exit_with : Option Device → Manager → Outcome
unfolding on_interfaces
exit_with none m = exited m
exit_with (some d) m = ending (on_interfaces release_interface d) (λ calls. exited (log m calls))

-- `stopEps`: the code behind `exit(-1)` never runs.
unfoldable pub stop_eps : ℕ → Manager → Outcome
unfolding stop_calls exit_with
stop_eps start m =
    exit_with m.device
      (log m (stop_calls (16 - start) start m.threads ++ (signal ∷ disconnect_eps ∷ [])))

-- The injectors that are asked to stop, for `n` more.
unfoldable pub stop_injectors : ℕ → ℕ → List Call
stop_injectors zero i = []
stop_injectors (suc n) i = stop_injector i ∷ stop_injectors n (suc i)

-- `stop_relaying` behind its `switch`.
unfoldable pub stop_all : Manager → Outcome
unfolding stop_injectors stop_eps
stop_all m = stop_eps 0 (record m {
  injector_threads = 0;
  calls = m.calls ++ (stop_injectors (length m.injectors) 0 ++ (join_injectors ∷ []));
})

unfoldable pub stop_by : Status → Manager → Outcome
unfolding stop_all
stop_by idle m = stop_all m
stop_by setup m = returns (record m { status = setup_abort })
stop_by relaying m = stop_all (record m { status = stopping })
stop_by stopping m = stop_all m
stop_by setup_abort m = stop_all (record m { status = stopping })
stop_by reset m = stop_all (record m { status = stopping })

unfoldable pub stop_relaying : Manager → Outcome
unfolding stop_by
stop_relaying m = stop_by m.status m

unfoldable pub host_connect_notification : Manager → Outcome
host_connect_notification m = returns m

unfoldable pub host_disconnect_notification : Manager → Outcome
unfolding stop_eps
host_disconnect_notification m = stop_eps 1 m

unfoldable pub device_disconnect_notification : Manager → Outcome
device_disconnect_notification m = returns (record m { status = reset })

-- The two calls of `setConfig` with the configurations that the device and its qualifier have.
unfoldable pub speeds : Device → Option DeviceQualifier → ℕ → Result (List Call)
unfolding get_configuration
speeds d none index = do
  own ← get_configuration d index
  ok (device_speeds own none d.highspeed ∷ host_speeds own none d.highspeed ∷ [])
speeds d (some q) index = do
  own ← get_configuration d index
  other ← DeviceQualifier.get_configuration q index
  ok (
      if d.highspeed
      then device_speeds other own true ∷ host_speeds other own true ∷ []
      else device_speeds own other false ∷ host_speeds own other false ∷ [])

-- `setConfig` from where the number is stored, with what `start_data_relaying` makes of the manager.
unfoldable pub apply_config : (Manager → Outcome) → ℕ → Option Device → Manager → Outcome
unfolding speeds
apply_config start index none m = crashed
apply_config start index (some d) m =
    let d' = set_active_configuration d index in
    ending (speeds d' d'.qualifier index)
      (λ calls. start (log (record m { device = some d' }) calls))

unfoldable pub set_config : (Manager → Outcome) → ℕ → Manager → Outcome
unfolding stop_eps apply_config
set_config start index m =
    if m.configuration_number == index
    then returns m
    else if not (m.configuration_number == 0)
    then stop_eps 1 m
    else apply_config start index m.device (record m { configuration_number = index })
