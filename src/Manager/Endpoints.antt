-- ===== src/Manager/Endpoints.antt =====
-- `start_data_relaying` of lib/Manager.cpp: the table of endpoints, and the relays made for them.
-- Endpoint 0 has index 0, which the second loop leaves out. What the threads do is modelled apart.
pub mod Pairs
pub mod Placing
use usbproxy.Base.{
  fun_ext, ℕ, zero, suc, ◌+◌, ◌-◌, ◌*◌, ◌/◌, ◌%◌, ◌^◌, ◌≤◌, ◌<◌, min, max, ◌≡◌, refl, sym, ap, ap₂,
  subst, ◌∙◌, ◌≢◌, ◌↔◌, ◌⊎◌, inl, inr, Bool, true, false, ◌&&◌, ◌||◌, not, Option, none, some, List,
  [], ◌∷◌, ◌++◌, map, append-nil, append_assoc, arith, ltb, leb, ◌==◌, if◌then◌else◌, ltb→lt,
  lt→ltb, leb→le, le→leb, lt→leb, ==_iff, ==_refl, ==_ne, if-cases, below, below-holds, Bool-cases,
  Option-cases, length, get_elem?, get_or, set, take, drop, replicate, length-append, length-set,
  get_elem?-set_self, get_elem?-set_ne, get_elem?-none, get_elem?-some, get_elem?-append_left,
  get_elem?-append_right, get_elem?-inside, get_elem?-replicate, get_elem?-take, take-append_length,
  drop-append_length, take-append_left, take_all, length-take, length-drop, length-replicate, All,
  All-append, All-get_elem?, All-set, All-replicate, get_elem?-at, set-at, Bytes, u8, u16, has,
}
use Prim.Native.Nat.{bit_and}
use usbproxy.Result.{Result, ok, fault, exits, spins, ◌>>=◌, deref, at_index, put_index}
use usbproxy.Descriptors.Endpoint.{Endpoint, byte, endpoint_address}
use usbproxy.Descriptors.Interface.{Interface, num_endpoints, interface_number}
use usbproxy.Descriptors.Interface.Access.{get_endpoint_by_idx}
use usbproxy.Descriptors.Configuration.{Configuration}
use usbproxy.Descriptors.Configuration.Access.{
  get_interface_alternate, get_interface_alternate_count,
}

-- The entries of one direction. A queue is known by a number; a relay by the queue that it was
-- made with.
pub record Side : Type 0 where
  pub endpoints : List (Option Endpoint)
  pub queues : List (Option ℕ)
  pub readers : List (Option ℕ)
  pub writers : List (Option ℕ)

-- `claimed` is what the device proxy was told by `set_endpoint_interface`, the last call first;
-- `next_queue` is the number of the next queue.
pub record Tables : Type 0 where
  pub inward : Side
  pub outward : Side
  pub next_queue : ℕ
  pub claimed : List (ℕ × ℕ)

abbrev pub empty_side : Side
empty_side = record {
  endpoints = replicate 16 none;
  queues = replicate 16 none;
  readers = replicate 16 none;
  writers = replicate 16 none;
}

-- As the constructor leaves the arrays.
abbrev pub init : Tables
init = record { inward = empty_side; outward = empty_side; next_queue = 0; claimed = [] }

-- An endpoint and a new queue, at an index below 16.
unfoldable pub place : Side → ℕ → Endpoint → ℕ → Result Side
place s i e queue = do
  es ← put_index s.endpoints i (some e)
  qs ← put_index s.queues i (some queue)
  ok (record s { endpoints = es; queues = qs })

-- An isochronous endpoint, which is not supported.
abbrev pub is_isochronous : Endpoint → Bool
is_isochronous e = bit_and (byte e.descriptor 3) 3 == 1

-- The body of the innermost loop.
unfoldable pub add_endpoint : Tables → Interface → Endpoint → Result Tables
unfolding place endpoint_address
add_endpoint t i e = if is_isochronous e then ok t else (do
  let index = endpoint_address e % 16
  let inside = has (endpoint_address e) 0x80
  inward ← if inside then place t.inward index e t.next_queue else ok t.inward
  outward ← if inside then ok t.outward else place t.outward index e t.next_queue
  ok (record {
    inward = inward;
    outward = outward;
    next_queue = suc t.next_queue;
    claimed = (endpoint_address e, interface_number i) ∷ t.claimed;
  }))

-- The loop over the endpoints of an interface, of which `n` are left, from `idx` on.
unfoldable pub add_endpoints : ℕ → ℕ → Interface → Tables → Result Tables
unfolding add_endpoint
add_endpoints zero idx i t = ok t
add_endpoints (suc n) idx i t = do
  slot ← get_endpoint_by_idx i idx
  e ← deref slot
  t' ← add_endpoint t i e
  add_endpoints n (suc idx) i t'

-- The loop over the alternate settings of an interface.
unfoldable pub add_alternates : ℕ → ℕ → ℕ → Configuration → Tables → Result Tables
unfolding add_endpoints
add_alternates zero number idx c t = ok t
add_alternates (suc n) number idx c t = do
  slot ← get_interface_alternate c number idx
  i ← deref slot
  t' ← add_endpoints (num_endpoints i) 0 i t
  add_alternates n number (suc idx) c t'

-- The loop over the interfaces.
unfoldable pub add_interfaces : ℕ → ℕ → Configuration → Tables → Result Tables
unfolding add_alternates
add_interfaces zero number c t = ok t
add_interfaces (suc n) number c t = do
  count ← get_interface_alternate_count c number
  t' ← add_alternates count number 0 c t
  add_interfaces n (suc number) c t'

-- `if (!relay[i]) relay[i] = new ...`: a relay that is there already stays.
unfoldable pub make_relay : List (Option ℕ) → ℕ → Option ℕ → ℕ → Result (List (Option ℕ))
make_relay relays i none queue = put_index relays i (some queue)
make_relay relays i (some old) queue = ok relays

-- The relays of one direction at one index, with what the tables hold there: the endpoint, the
-- reader, the writer and the queue.
unfoldable pub pair_at : Side → ℕ → Option Endpoint → Option ℕ → Option ℕ → Option ℕ → Result Side
unfolding make_relay
pair_at s i none r w q = ok s
pair_at s i (some e) r w q = do
  queue ← deref q
  rs ← make_relay s.readers i r queue
  ws ← make_relay s.writers i w queue
  ok (record s { readers = rs; writers = ws })

unfoldable pub make_pair : Side → ℕ → Result Side
unfolding pair_at
make_pair s i = do
  e ← at_index s.endpoints i
  r ← at_index s.readers i
  w ← at_index s.writers i
  q ← at_index s.queues i
  pair_at s i e r w q

-- The loop that makes the relays, for the next `n` indices.
unfoldable pub make_relays : ℕ → ℕ → Tables → Result Tables
unfolding make_pair
make_relays zero i t = ok t
make_relays (suc n) i t = do
  inward ← make_pair t.inward i
  outward ← make_pair t.outward i
  make_relays n (suc i) (record t { inward = inward; outward = outward })

-- The first half of `start_data_relaying`, up to the filters.
unfoldable pub start_data_relaying : Configuration → Tables → Result Tables
unfolding add_interfaces make_relays
start_data_relaying c t = do t' ← add_interfaces (byte c.descriptor 4) 0 c t; make_relays 15 1 t'
