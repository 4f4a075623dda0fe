-- ===== src/Tests/Managers.antt =====
-- lib/Manager.cpp, lib/Injector.cpp, lib/Criteria.cpp and lib/Configuration.cpp on small inputs.
use usbproxy.Base.{
  ℕ, zero, suc, ◌≤◌, ◌<◌, ◌≡◌, refl, Bool, true, false, ◌&&◌, none, some, [], ◌∷◌, ◌++◌, arith,
  ◌==◌, get_elem?, set, replicate, get_elem?-replicate, Bytes,
}
use usbproxy.Result.{ok}
use usbproxy.Descriptors.Endpoint.{Endpoint, endpoint_address, byte, word}
use usbproxy.Descriptors.Endpoint
use usbproxy.Descriptors.Interface
use usbproxy.Descriptors.Interface.{Interface, full_endpoints, full_generics, full_hid}
use usbproxy.Descriptors.Interface.Access.{get_endpoint_by_idx}
use usbproxy.Descriptors.Group
use usbproxy.Descriptors.Group.{Group, full_slots}
use usbproxy.Descriptors.Configuration.Access
use usbproxy.Descriptors.Configuration.Access.{
  full_groups, get_interface_alternate, get_interface_alternate_count,
}
use usbproxy.Tests.Mouse.{pointer, mouse, config}
use usbproxy.Manager.Injectors.{Queues, assign}
use usbproxy.Manager.Injectors.Offered.{routes, AreReady, Ready, ready, wanted}
use usbproxy.Manager.Injectors.Routed.{IsSized, assign-wanted}
use usbproxy.Manager.Plugins.{cleanup}
use usbproxy.Manager.Plugins.Removal.{slots_of}
use usbproxy.Manager.Plugins.Growth.{cleanup-slots_of}
use usbproxy.Manager.Endpoints.{
  Side, Tables, empty_side, init, start_data_relaying, add_interfaces, add_alternates,
  add_endpoints, add_endpoint, place, make_relays, make_pair, pair_at, make_relay,
}
use usbproxy.Manager.Filters.{PluggedIn, Both, Endpoints, Writers, give_filters, is_meant, wants}
use usbproxy.Manager.Filters.Selected.{side, chosen}
use usbproxy.Manager.Filters.Complete.{vacant, served, IsServed, give_filters-served}
use usbproxy.Manager.Endpoints.Pairs.{ArePaired, start_data_relaying-ArePaired}
use usbproxy.Injector
use usbproxy.Injector.{Routes, set_queue, deliver, injects, enqueued}
use usbproxy.Criteria.{
  test_endpoint, any_endpoint, test_interface, any_interface, test_configuration, any_configuration,
  test_device, any_device,
}

abbrev written : Bytes
written =
    9 ∷ 2 ∷ 25 ∷ 0 ∷ 1 ∷ 1 ∷ 0 ∷ 0xa0 ∷ 50 ∷ 9 ∷ 4 ∷ 0 ∷ 0 ∷ 1 ∷ 3 ∷ 1 ∷ 2 ∷ 0 ∷ 7 ∷ 5 ∷ 0x81 ∷ 3
    ∷ 4 ∷ 0 ∷ 10 ∷ []

config-written : Access.get_full_descriptor config ≡ ok written
unfolding Access.get_full_descriptor full_groups Group.get_full_descriptor full_slots
    Interface.get_full_descriptor full_endpoints full_generics full_hid Endpoint.get_full_descriptor
config-written = refl

cleanup-slots_of_example : cleanup 2 (λ x. x == 1) (slots_of (1 ∷ 2 ∷ [])) ≡ ok (slots_of [])
cleanup-slots_of_example = cleanup-slots_of 2 (λ x. x == 1) (1 ∷ 2 ∷ []) (omega arith) (omega arith)

abbrev mouse_side : Side
mouse_side = record {
  endpoints = set (replicate 16 none) 1 (some pointer);
  queues = set (replicate 16 none) 1 (some 0);
  readers = set (replicate 16 none) 1 (some 0);
  writers = set (replicate 16 none) 1 (some 0);
}

abbrev started : Tables
started = record {
  inward = mouse_side;
  outward = empty_side;
  next_queue = 1;
  claimed = (0x81, 0) ∷ [];
}

config-started : start_data_relaying config init ≡ ok started
unfolding start_data_relaying add_interfaces add_alternates add_endpoints add_endpoint
    endpoint_address place make_relays make_pair pair_at make_relay get_interface_alternate
    get_interface_alternate_count Group.get_interface get_endpoint_by_idx
config-started = refl

start_data_relaying-ArePaired_example : ArePaired started 1
start_data_relaying-ArePaired_example =
    start_data_relaying-ArePaired config started 1 config-started (omega arith) (omega arith)

-- A filter for everything and one for the endpoint 0x05, offered to the writer of the mouse.
abbrev plug : ℕ → ℕ → PluggedIn
plug number mask = record {
  number = number;
  endpoint = record any_endpoint { address = 5; address_mask = mask };
  interface = any_interface;
  configuration = any_configuration;
  device = any_device;
}

abbrev device_bytes : Bytes
device_bytes = 18 ∷ 1 ∷ 0 ∷ 2 ∷ 0 ∷ 0 ∷ 0 ∷ 8 ∷ []

abbrev mouse_endpoints : Both Endpoints
mouse_endpoints = record {
  inward = none ∷ some (pointer, mouse) ∷ replicate 14 none;
  outward = replicate 16 none;
}

abbrev mouse_writers : Both Writers
mouse_writers = record { inward = none ∷ some [] ∷ replicate 14 none; outward = replicate 16 none }

inward-IsServed : IsServed mouse_endpoints.inward mouse_writers.inward
unfolding IsServed
inward-IsServed zero l = (none, refl, vacant)
inward-IsServed (suc zero) l = (some (pointer, mouse), refl, served [])
inward-IsServed (suc (suc j)) l = (none, get_elem?-replicate 14 j none (omega arith), vacant)

outward-IsServed : IsServed mouse_endpoints.outward mouse_writers.outward
unfolding IsServed
outward-IsServed j l = (none, get_elem?-replicate 16 j none l, vacant)

give_filters-served_example :
    (ws : Both Writers) × (give_filters device_bytes config
        (plug 1 0 ∷ plug 2 255 ∷ [])
        mouse_endpoints
        mouse_writers
      ≡ ok ws)
    × (get_elem? (side true ws) 1
        ≡ some (
            some (
              []
              ++ chosen
                  (λ f. is_meant device_bytes config f && wants f (pointer, mouse))
                  (plug 1 0 ∷ plug 2 255 ∷ []))))
give_filters-served_example =
    give_filters-served device_bytes config (plug 1 0 ∷ plug 2 255 ∷ []) mouse_endpoints
      mouse_writers true 1 (pointer, mouse) [] inward-IsServed outward-IsServed (omega arith)
      (omega arith) refl refl

chosen-mouse :
    chosen
      (λ f. is_meant device_bytes config f && wants f (pointer, mouse))
      (plug 1 0 ∷ plug 2 255 ∷ [])
    ≡ plug 1 0 ∷ []
unfolding is_meant wants test_endpoint test_interface test_configuration test_device any_endpoint
    any_interface any_configuration any_device
chosen-mouse = refl

abbrev mouse_queues : Both Queues
mouse_queues = record { inward = none ∷ some 4 ∷ replicate 14 none; outward = replicate 16 none }

inward-AreReady : AreReady mouse_endpoints.inward mouse_queues.inward
unfolding AreReady
inward-AreReady zero l = (none, refl, Ready.vacant)
inward-AreReady (suc zero) l = (some (pointer, mouse), refl, ready 4)
inward-AreReady (suc (suc j)) l = (none, get_elem?-replicate 14 j none (omega arith), Ready.vacant)

outward-AreReady : AreReady mouse_endpoints.outward mouse_queues.outward
unfolding AreReady
outward-AreReady j l = (none, get_elem?-replicate 16 j none l, Ready.vacant)

init-IsSized : IsSized Injector.init
unfolding Injector.init
init-IsSized true = refl
init-IsSized false = refl

-- An injector for everything gets the queue of the mouse.
assign-wanted_example :
    (r : Routes) × (assign device_bytes config (plug 1 0) mouse_endpoints mouse_queues Injector.init
      ≡ ok r)
    × ((b : Bool) (k : ℕ)
        → 1 ≤ k
        → k < 16
        → get_elem? (routes b r) k
          ≡ wanted
              (λ e. is_meant device_bytes config (plug 1 0) && wants (plug 1 0) e)
              (get_elem? (side b mouse_endpoints) k)
              (get_elem? (side b mouse_queues) k)
              (get_elem? (routes b Injector.init) k))
assign-wanted_example =
    assign-wanted device_bytes config (plug 1 0) mouse_endpoints mouse_queues Injector.init
      inward-AreReady outward-AreReady init-IsSized
