-- ===== src/Relay/Control.antt =====
-- The control endpoint: `relay_read_setup` and `relay_write_setup` run side by side over two queues.
-- No injector is attached and no thread is asked to stop.
pub mod Dropped
pub mod OneRequest
use usbproxy.Base.{
  fun_ext, ℕ, zero, suc, ◌+◌, ◌-◌, ◌*◌, ◌/◌, ◌%◌, ◌^◌, ◌≤◌, ◌<◌, min, max, ◌≡◌, refl, sym, ap, ap₂,
  subst, ◌∙◌, ◌≢◌, ◌↔◌, ◌⊎◌, inl, inr, Bool, true, false, ◌&&◌, ◌||◌, not, Option, none, some, List,
  [], ◌∷◌, ◌++◌, map, append-nil, append_assoc, arith, ltb, leb, ◌==◌, if◌then◌else◌, ltb→lt,
  lt→ltb, leb→le, le→leb, lt→leb, ==_iff, ==_refl, ==_ne, if-cases, below, below-holds, Bool-cases,
  Option-cases, length, get_elem?, get_or, set, take, drop, replicate, length-append, length-set,
  get_elem?-set_self, get_elem?-set_ne, get_elem?-none, get_elem?-some, get_elem?-append_left,
  get_elem?-append_right, get_elem?-inside, get_elem?-replicate, get_elem?-take, take-append_length,
  drop-append_length, take-append_left, take_all, length-take, length-drop, length-replicate, All,
  All-append, All-get_elem?, All-set, All-replicate, get_elem?-at, set-at, Bytes, u8, u16, has,
}
use usbproxy.Result.{Result, ok, fault, ◌>>=◌}
use usbproxy.Packet.{CtrlRequest, Packet, SetupPacket, PacketPtr, nullptr, plain, setup}
use usbproxy.Queue
use usbproxy.Queue.{SafeQueue, Dequeued, item, dequeue, enqueue, size}
use usbproxy.Relay.Writer.{Plugin, Reply, Outcome, dropped, replied, write_setup}
use usbproxy.Relay.Reader.{
  ReaderState, HostEvent, got_setup, HostAction, request_round, reply_round, complete_round,
}

pub record System (World : Type 0) : Type 0 where
  pub reader : ReaderState
  pub to_writer : SafeQueue PacketPtr
  pub to_reader : SafeQueue PacketPtr
  pub world : World
  pub len : ℕ

abbrev pub start : {World : Type 0} → World → System World
start w = record {
  reader = record { direction_out = true; holding = false };
  to_writer = Queue.init;
  to_reader = Queue.init;
  world = w;
  len = 0;
}

abbrev pub IsSetup : PacketPtr → Type 0
IsSetup nullptr = ⊥
IsSetup (plain p) = ⊥
IsSetup (setup s) = Unit {0}

module _ {World : Type 0} (control : World → CtrlRequest → Option Bytes → World × Reply)
    (fs : List (Plugin World)) where
  -- One round of one of the two threads.
  pub data Step (s : System World) : System World → Type 0 where
    -- The reader asks the host proxy, and hands a request over.
    asks :
        (ev : HostEvent)
        → s.reader.direction_out ≡ true
        → Step s (record s {
          reader = (request_round s.reader s.to_writer ev).0;
          to_writer = (request_round s.reader s.to_writer ev).1;
        })
    -- The writer takes a packet that is no setup packet, and goes on.
    skips :
        (p : PacketPtr) (q : SafeQueue PacketPtr)
        → dequeue s.to_writer ≡ item p q
        → ¬ IsSetup p
        → Step s (record s { to_writer = q })
    -- The writer takes a request; a filter has it dropped.
    drops :
        (p : SetupPacket) (q : SafeQueue PacketPtr) (w : World) (len : ℕ)
        → dequeue s.to_writer ≡ item (setup p) q
        → write_setup control fs s.world s.len p ≡ ok (w, len, dropped)
        → Step s (record s { to_writer = q; world = w; len = len })
    -- The writer takes a request, carries it out and sends the reply back.
    writes :
        (p p' : SetupPacket) (q : SafeQueue PacketPtr) (w : World) (len : ℕ) (config : Option ℕ)
        → dequeue s.to_writer ≡ item (setup p) q
        → write_setup control fs s.world s.len p ≡ ok (w, len, replied p' config)
        → Step s (record s {
          to_writer = q;
          to_reader = enqueue s.to_reader (setup p');
          world = w;
          len = len;
        })
    -- The reader takes a reply and passes it to the host proxy.
    takes :
        (p : PacketPtr) (q : SafeQueue PacketPtr)
        → s.reader.direction_out ≡ false
        → s.reader.holding ≡ false
        → dequeue s.to_reader ≡ item p q
        → Step s (record s { reader = (reply_round s.reader p).0; to_reader = q })
    -- The reader asks whether the host proxy is done with the reply.
    waits :
        (done : Bool)
        → s.reader.direction_out ≡ false
        → s.reader.holding ≡ true
        → Step s (record s { reader = complete_round s.reader done })

  pub data Reach (s : System World) : System World → Type 0 where
    here : Reach s s
    next : {t u : System World} → Reach s t → Step t u → Reach s u
