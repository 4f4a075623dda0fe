-- ===== src/Injector.antt =====
-- lib/Injector.cpp: where an injector's packets go. A queue is known by a number.
pub mod Routing
use usbproxy.Base.{
  fun_ext, ℕ, zero, suc, ◌+◌, ◌-◌, ◌*◌, ◌/◌, ◌%◌, ◌^◌, ◌≤◌, ◌<◌, min, max, ◌≡◌, refl, sym, ap, ap₂,
  subst, ◌∙◌, ◌≢◌, ◌↔◌, ◌⊎◌, inl, inr, Bool, true, false, ◌&&◌, ◌||◌, not, Option, none, some, List,
  [], ◌∷◌, ◌++◌, map, append-nil, append_assoc, arith, ltb, leb, ◌==◌, if◌then◌else◌, ltb→lt,
  lt→ltb, leb→le, le→leb, lt→leb, ==_iff, ==_refl, ==_ne, if-cases, below, below-holds, Bool-cases,
  Option-cases, length, get_elem?, get_or, set, take, drop, replicate, length-append, length-set,
  get_elem?-set_self, get_elem?-set_ne, get_elem?-none, get_elem?-some, get_elem?-append_left,
  get_elem?-append_right, get_elem?-inside, get_elem?-replicate, get_elem?-take, take-append_length,
  drop-append_length, take-append_left, take_all, length-take, length-drop, length-replicate, All,
  All-append, All-get_elem?, All-set, All-replicate, get_elem?-at, set-at, Bytes, u8, u16, has,
}
use usbproxy.Packet.{Packet, SetupPacket}
use usbproxy.Result.{Result, ok, fault, exits, spins, ◌>>=◌, at_index, put_index}

-- The two arrays have sixteen entries; `none` is the null pointer.
pub record Routes : Type 0 where
  pub out_queues : List (Option ℕ)
  pub in_queues : List (Option ℕ)

unfoldable pub init : Routes
init = record { out_queues = replicate 16 none; in_queues = replicate 16 none }

unfoldable pub set_queue : Routes → ℕ → ℕ → Result Routes
set_queue r address queue =
    if has address 0x80
    then (do
      qs ← put_index r.in_queues (address % 16) (some queue)
      ok (record r { in_queues = qs }))
    else (do
      qs ← put_index r.out_queues (address % 16) (some queue)
      ok (record r { out_queues = qs }))

-- What `get_packets` gave: a setup packet, a packet, or neither.
pub data Injected : Type 0 where
  injects_setup : SetupPacket → Injected
  injects : Packet → Injected
  nothing : Injected

-- What becomes of it: it goes to a queue by `enqueuePriority`, back to the injector by `full_pipe`,
-- or there is nothing to do.
pub data Fate : Type 0 where
  enqueued : ℕ → Fate
  returned : Fate
  idle : Fate

abbrev pub sent_to : Option ℕ → Fate
sent_to none = returned
sent_to (some queue) = enqueued queue

-- The body of the loop of `listen`, for one descriptor that can be read.
unfoldable pub deliver : Routes → Injected → Result Fate
deliver r (injects_setup s) = do q ← at_index r.out_queues 0; ok (sent_to q)
deliver r (injects p) = do
  q ← at_index (if has p.endpoint 0x80 then r.in_queues else r.out_queues) (p.endpoint % 16)
  ok (sent_to q)
deliver r nothing = ok idle
