-- ===== src/Tests/Starts.antt =====
-- lib/Manager.cpp, the start and the stop of relaying, and lib/TCP_Helper.cpp on small inputs.

use usbproxy.Device.Access.{get_active_configuration}
use usbproxy.Descriptors.Configuration.{Configuration}
use usbproxy.Base.{
  ◌+◌, ◌≡◌, refl, inl, true, false, Option, none, some, [], ◌∷◌, arith, ◌==◌, if◌then◌else◌, take,
  replicate, Bytes,
}
use usbproxy.Result.{Result, ok, fault, exits, spins}
use usbproxy.Packet.{CtrlRequest}
use usbproxy.Device.{Device}
use usbproxy.Device.Load.{from_proxy, blank}
use usbproxy.Manager.Relaying.{
  idle, relaying, stopping, Threads, Manager, returns, exited, in_reader, is_joinable,
  on_interfaces, claim_interface, stop_relaying,
}
use usbproxy.Manager.Relaying.Start.{World, start_control_relaying}
use usbproxy.Manager.Relaying.Returned.{Returned, relays, start_control_relaying-Returned}
use usbproxy.Manager.Relaying.Quiet.{start_control_relaying-relays}
use usbproxy.Manager.Relaying.Requests.{requests}
use usbproxy.Manager.Relaying.Stopped.{stop_relaying-requests}

abbrev device_reply : Bytes
device_reply = 18 ∷ 1 ∷ 0 ∷ 2 ∷ 0 ∷ 0 ∷ 0 ∷ 8 ∷ 1 ∷ 0 ∷ 2 ∷ 0 ∷ 0 ∷ 1 ∷ 0 ∷ 0 ∷ 0 ∷ 1 ∷ []

abbrev config_reply : Bytes
config_reply =
    9 ∷ 2 ∷ 25 ∷ 0 ∷ 1 ∷ 1 ∷ 0 ∷ 0xa0 ∷ 50 ∷ 9 ∷ 4 ∷ 0 ∷ 0 ∷ 1 ∷ 3 ∷ 1 ∷ 2 ∷ 0 ∷ 7 ∷ 5 ∷ 0x81 ∷ 3
    ∷ 4 ∷ 0 ∷ 10 ∷ []

-- A mouse that is configured and has no strings but string 0.
abbrev mouse_replies : CtrlRequest → Option Bytes
mouse_replies r =
    if r.request == 8
    then some (1 ∷ [])
    else if r.value == 0x100
    then some device_reply
    else if r.value == 0x200
    then some (take r.length config_reply)
    else if r.value == 0x300
    then some (4 ∷ 3 ∷ 9 ∷ 4 ∷ [])
    else none

abbrev world : World
world = record {
  device_codes = 110 ∷ 0 ∷ [];
  host_codes = 110 ∷ 110 ∷ 0 ∷ [];
  proxy = record { replies = mouse_replies; address = 1; is_highspeed = false };
  memory = record {
    device_bytes = replicate 18 0;
    qualifier_bytes = replicate 10 0;
    endpoint_bytes = replicate 9 0;
    block = replicate 8 0;
  };
}

loaded : Result Device → Device
loaded (ok d) = d
loaded fault = blank [] none
loaded exits = blank [] none
loaded spins = blank [] none

abbrev no_threads : Threads
no_threads = record {
  in_readers = replicate 16 false;
  in_writers = replicate 16 false;
  out_readers = replicate 16 false;
  out_writers = replicate 16 false;
}

abbrev manager : Manager
manager = record {
  status = idle;
  configuration_number = 0;
  device = none;
  filters = [];
  injectors = [];
  control_filters = [];
  control_injectors = [];
  injector_threads = 0;
  threads = no_threads;
  calls = [];
}

start_control_relaying-relays_example :
    start_control_relaying world [] manager
    ≡ returns
        (relays (loaded (from_proxy world.memory world.proxy)) (claim_interface 0 ∷ []) manager)
unfolding loaded from_proxy on_interfaces usbproxy.Descriptors.Configuration.ask
    usbproxy.Device.add_string_of usbproxy.Strings.from_device
    usbproxy.Descriptors.Configuration.from_device usbproxy.Descriptors.Interface.from_buffer
    usbproxy.Descriptors.Interface.add_part usbproxy.Descriptors.Group.add_interface
    usbproxy.Descriptors.Group.init
    usbproxy.Descriptors.Configuration.Access.get_interface_alternate_count
    usbproxy.Descriptors.Configuration.Access.get_interface_alternate
    usbproxy.Descriptors.Group.get_interface usbproxy.Device.Access.get_active_configuration
start_control_relaying-relays_example =
    start_control_relaying-relays world manager (loaded (from_proxy world.memory world.proxy))
      (claim_interface 0 ∷ []) 1 2 refl refl refl refl

start_control_relaying-Returned_example :
    Returned (record world { device_codes = 5 ∷ [] }) manager (record manager { status = idle })
unfolding start_control_relaying
start_control_relaying-Returned_example =
    start_control_relaying-Returned (record world { device_codes = 5 ∷ [] })
      (none ∷ some relaying ∷ []) manager (record manager { status = idle }) refl

abbrev busy : Manager
busy = record manager {
  status = relaying;
  threads = record no_threads { in_readers = false ∷ true ∷ [] };
}

stop_relaying-requests_example :
    (m' : Manager) × (stop_relaying busy ≡ exited m')
    × (m'.status ≡ stopping)
    × (requests in_reader 1 m'.calls
        ≡ requests in_reader 1 busy.calls + (if is_joinable busy.threads in_reader 1 then 1 else 0))
stop_relaying-requests_example =
    stop_relaying-requests 0 busy in_reader 1 refl (inl refl) (omega arith)

-- A device with one configuration, which is built here.
abbrev one_config : Configuration
one_config = record {
  descriptor = 9 ∷ 2 ∷ 9 ∷ 0 ∷ 0 ∷ 1 ∷ 0 ∷ 0x80 ∷ 50 ∷ [];
  interface_groups = [];
}

abbrev built : Device
built = record (blank device_reply none) { configurations = some one_config ∷ [] }
