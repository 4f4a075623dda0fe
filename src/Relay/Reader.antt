-- ===== src/Relay/Reader.antt =====
-- lib/RelayReader.cpp.
pub mod ZeroLength
use usbproxy.Base.{
  fun_ext, ℕ, zero, suc, ◌+◌, ◌-◌, ◌*◌, ◌/◌, ◌%◌, ◌^◌, ◌≤◌, ◌<◌, min, max, ◌≡◌, refl, sym, ap, ap₂,
  subst, ◌∙◌, ◌≢◌, ◌↔◌, ◌⊎◌, inl, inr, Bool, true, false, ◌&&◌, ◌||◌, not, Option, none, some, List,
  [], ◌∷◌, ◌++◌, map, append-nil, append_assoc, arith, ltb, leb, ◌==◌, if◌then◌else◌, ltb→lt,
  lt→ltb, leb→le, le→leb, lt→leb, ==_iff, ==_refl, ==_ne, if-cases, below, below-holds, Bool-cases,
  Option-cases, length, get_elem?, get_or, set, take, drop, replicate, length-append, length-set,
  get_elem?-set_self, get_elem?-set_ne, get_elem?-none, get_elem?-some, get_elem?-append_left,
  get_elem?-append_right, get_elem?-inside, get_elem?-replicate, get_elem?-take, take-append_length,
  drop-append_length, take-append_left, take_all, length-take, length-drop, length-replicate, All,
  All-append, All-get_elem?, All-set, All-replicate, get_elem?-at, set-at, Bytes, u8, u16, has,
}
use usbproxy.Packet.{
  CtrlRequest, SetupPacket, PacketPtr, nullptr, plain, setup, new_packet, new_setup,
}
use usbproxy.Queue.{SafeQueue, enqueue, empty}

-- What `receive_data` stored: nothing (a null pointer), or a buffer and its length.
pub data Received : Type 0 where
  no_data : Received
  buffer : Bytes → Received

-- One round of `relay_read` on a data endpoint, after `receive_data`: the send queue and the count
-- of zero-length packets in a row, an `unsigned`. A zero-length packet is passed on only behind one
-- that is not, or when the queue is empty; else its buffer is freed.
unfoldable pub read_round : ℕ → SafeQueue PacketPtr → ℕ → Received → SafeQueue PacketPtr × ℕ
read_round endpoint q zlp no_data = (q, zlp)
read_round endpoint q zlp (buffer (b ∷ bs)) =
    (enqueue q (plain (new_packet endpoint (b ∷ bs) (length (b ∷ bs)))), 0)
read_round endpoint q zlp (buffer []) =
    if zlp == 0 || empty q
    then (enqueue q (plain (new_packet endpoint [] 0)), (zlp + 1) % 2 ^ 32)
    else (q, (zlp + 1) % 2 ^ 32)

-- What `control_request` of the host proxy reports.
pub data HostEvent : Type 0 where
  got_setup : CtrlRequest → Option Bytes → HostEvent
  disconnected connected timed_out : HostEvent

-- The variables of `relay_read_setup`: `holding` is `p` where it is not null.
pub record ReaderState : Type 0 where
  pub direction_out : Bool
  pub holding : Bool

-- What the reader tells the host proxy about a reply.
pub data HostAction : Type 0 where
  sends_data : Option Bytes → ℕ → HostAction
  acks stalls : HostAction

unfoldable pub host_action : SetupPacket → HostAction
host_action s =
    if s.transmit_in
    then (if s.ctrl_req.length == 0 then acks else sends_data s.data_bytes s.ctrl_req.length)
    else stalls

-- A round with `direction_out`. The notifications to the manager are left to the caller.
unfoldable pub request_round :
    ReaderState → SafeQueue PacketPtr → HostEvent → ReaderState × SafeQueue PacketPtr
request_round r q (got_setup c bytes) =
    (record r { direction_out = false }, enqueue q (setup (new_setup c bytes)))
request_round r q disconnected = (r, q)
request_round r q connected = (r, q)
request_round r q timed_out = (r, q)

-- What a round without `direction_out` does with a packet from the receive queue. A null pointer,
-- or a packet of another kind, leaves the reader waiting.
unfoldable pub reply_round : ReaderState → PacketPtr → ReaderState × Option HostAction
unfolding host_action
reply_round r nullptr = (r, none)
reply_round r (plain p) = (r, none)
reply_round r (setup s) = (record r { holding = true }, some (host_action s))

-- `send_wait_complete`, once a reply is held.
unfoldable pub complete_round : ReaderState → Bool → ReaderState
complete_round r done = if done then record r { direction_out = true; holding = false } else r
