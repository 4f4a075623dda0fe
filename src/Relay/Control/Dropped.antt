-- ===== src/Relay/Control/Dropped.antt =====
-- A request that a filter has dropped: neither thread of the control endpoint goes on.
use usbproxy.Base.{ℕ, ◌≡◌, inl, inr, false, Option, List, arith, Bool-cases, Bytes}
use usbproxy.Packet.{CtrlRequest, SetupPacket, setup}
use usbproxy.Queue.{SafeQueue, item, dequeue}
use usbproxy.Queue.Bounds.{size-dequeue}
use usbproxy.Relay.Writer.{Plugin, Reply, dropped, write_setup}
use usbproxy.Relay.Control.{
  ok, System, start, Step, asks, skips, drops, writes, takes, waits, Reach,
}
use usbproxy.Relay.Control.OneRequest.{in_flight, OneAtATime, Reach-OneAtATime}

module _ {World : Type 0} (control : World → CtrlRequest → Option Bytes → World × Reply)
    (fs : List (Plugin World)) where
  -- Nothing is under way, and the reader is not listening: it waits for a reply.
  record IsIdle (s : System World) : Type 0 where
    nothing : in_flight s ≡ 0
    deaf : s.reader.direction_out ≡ false

  IsIdle-no-Step : (s t : System World) → IsIdle s → ¬ Step control fs s t
  IsIdle-no-Step s t v (asks ev d) = absurd (cc (d, v.deaf))
  IsIdle-no-Step s t v (skips p q e n) =
      absurd (omega (arith, size-dequeue s.to_writer p q e, v.nothing))
  IsIdle-no-Step s t v (drops p q w len e o) =
      absurd (omega (arith, size-dequeue s.to_writer (setup p) q e, v.nothing))
  IsIdle-no-Step s t v (writes p p' q w len c e o) =
      absurd (omega (arith, size-dequeue s.to_writer (setup p) q e, v.nothing))
  IsIdle-no-Step s t v (takes p q d h e) =
      absurd (omega (arith, size-dequeue s.to_reader p q e, v.nothing))
  IsIdle-no-Step s t v (waits done d h) = absurd (ground (arith, v.nothing))

  busy-IsIdle :
      (s : System World) (p : SetupPacket) (q : SafeQueue _) (w : World) (len : ℕ)
      → OneAtATime s
      → dequeue s.to_writer ≡ item (setup p) q
      → IsIdle (record s { to_writer = q; world = w; len = len })
  busy-IsIdle s p q w len v e = record {
    nothing = omega (arith, size-dequeue s.to_writer (setup p) q e, v.single);
    deaf = elim (Bool-cases s.reader.direction_out) [
      | inl on ↦ absurd (omega (arith, size-dequeue s.to_writer (setup p) q e, v.listening on))
      | inr off ↦ off
    ];
  }

  -- When a filter has a control request dropped, in a state that the two threads reach, no step of
  -- either is possible from then on: the reader waits for a reply that is never sent.
  pub dropped-no-Step :
      (w : World) (s : System World) (p : SetupPacket) (q : SafeQueue _) (w' : World) (len : ℕ)
      → Reach control fs (start w) s
      → dequeue s.to_writer ≡ item (setup p) q
      → write_setup control fs s.world s.len p ≡ ok (w', len, dropped)
      → let t = record s { to_writer = q; world = w'; len = len } in
        Step control fs s t × ((u : System World) → ¬ Step control fs t u)
  dropped-no-Step w s p q w' len r e o = (
    drops p q w' len e o,
    λ u. IsIdle-no-Step _ u (busy-IsIdle s p q w' len (Reach-OneAtATime control fs w s r) e),
  )
