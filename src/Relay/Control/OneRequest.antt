-- ===== src/Relay/Control/OneRequest.antt =====
-- The control endpoint handles one request at a time.
use usbproxy.Base.{ℕ, ◌+◌, ◌≤◌, ◌≡◌, refl, true, false, Option, List, arith, if◌then◌else◌, Bytes}
use usbproxy.Packet.{CtrlRequest, PacketPtr, nullptr, plain, setup, new_setup}
use usbproxy.Queue
use usbproxy.Queue.{SafeQueue, Dequeued, item, dequeue, enqueue, size}
use usbproxy.Queue.Bounds.{size-dequeue, size-enqueue}
use usbproxy.Relay.Writer.{Plugin, Reply}
use usbproxy.Relay.Reader.{
  got_setup, timed_out, connected, disconnected, request_round, reply_round, complete_round,
}
use usbproxy.Relay.Control.{
  System, start, Step, asks, skips, drops, writes, takes, waits, Reach, here, next,
}

module _ {World : Type 0} where
  -- The requests between the host and the device, and the reply that the reader holds.
  abbrev pub in_flight : System World → ℕ
  in_flight s = size s.to_writer + size s.to_reader + (if s.reader.holding then 1 else 0)

  -- At most one request is under way, and none while the reader listens for the next; the reader
  -- holds a reply only when it does not listen.
  pub record OneAtATime (s : System World) : Type 0 where
    pub single : in_flight s ≤ 1
    pub listening : s.reader.direction_out ≡ true → in_flight s ≡ 0

module _ {World : Type 0} (control : World → CtrlRequest → Option Bytes → World × Reply)
    (fs : List (Plugin World)) where
  Step-OneAtATime : {s t : System World} → Step control fs s t → OneAtATime s → OneAtATime t
  unfolding request_round reply_round complete_round
  Step-OneAtATime {s} (asks (got_setup c b) d) v = record {
    single =
        let none : in_flight s ≡ 0 = v.listening d in
        omega (arith, size-enqueue s.to_writer (setup (new_setup c b)));
    listening = λ e. cc;
  }
  Step-OneAtATime (asks disconnected d) v = record { single = v.single; listening = v.listening }
  Step-OneAtATime (asks connected d) v = record { single = v.single; listening = v.listening }
  Step-OneAtATime (asks timed_out d) v = record { single = v.single; listening = v.listening }
  Step-OneAtATime {s} (skips p q e n) v = record {
    single = omega (arith, size-dequeue s.to_writer p q e, v.single);
    listening = λ d. omega (arith, size-dequeue s.to_writer p q e, v.listening d);
  }
  Step-OneAtATime {s} (drops p q w len e o) v = record {
    single = omega (arith, size-dequeue s.to_writer (setup p) q e, v.single);
    listening = λ d. omega (arith, size-dequeue s.to_writer (setup p) q e, v.listening d);
  }
  Step-OneAtATime {s} (writes p p' q w len c e o) v = record {
    single = omega (
      arith,
      size-dequeue s.to_writer (setup p) q e,
      v.single,
      size-enqueue s.to_reader (setup p'),
    );
    listening = λ d. omega (arith, size-dequeue s.to_writer (setup p) q e, v.listening d);
  }
  Step-OneAtATime {s} (takes nullptr q d h e) v = record {
    single = omega (arith, size-dequeue s.to_reader nullptr q e, v.single);
    listening = λ l. cc;
  }
  Step-OneAtATime {s} (takes (plain p) q d h e) v = record {
    single = omega (arith, size-dequeue s.to_reader (plain p) q e, v.single);
    listening = λ l. cc;
  }
  Step-OneAtATime {s} (takes (setup p) q d h e) v = record {
    single = ground (arith, size-dequeue s.to_reader (setup p) q e, v.single);
    listening = λ l. cc;
  }
  Step-OneAtATime {s} (waits true d h) v = record {
    single = ground (arith, v.single);
    listening = λ l. ground (arith, v.single);
  }
  Step-OneAtATime {s} (waits false d h) v = record { single = v.single; listening = v.listening }

  size-init : size (Queue.init {A = PacketPtr}) ≡ 0
  unfolding size Queue.init
  size-init = refl

  start-OneAtATime : (w : World) → OneAtATime (start w)
  start-OneAtATime w = record {
    single = omega (arith, size-init);
    listening = λ l. omega (arith, size-init);
  }

  -- In every state that the two threads reach, in whatever order they run, at most one request is
  -- under way, and none while the reader listens to the host.
  pub Reach-OneAtATime :
      (w : World) (s : System World) → Reach control fs (start w) s → OneAtATime s
  Reach-OneAtATime w s here = start-OneAtATime w
  Reach-OneAtATime w s (next {t} r st) = Step-OneAtATime st (Reach-OneAtATime w t r)
