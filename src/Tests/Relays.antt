-- ===== src/Tests/Relays.antt =====
-- lib/RelayReader.cpp and lib/RelayWriter.cpp on small inputs.
use usbproxy.Base.{◌≡◌, refl, true, false, Option, none, some, List, [], ◌∷◌, arith, Bytes}
use usbproxy.Result.{ok}
use usbproxy.Packet.{CtrlRequest, setup, new_setup}
use usbproxy.Queue
use usbproxy.Queue.{SafeQueue, enqueue, push_bounded, dequeue, take_from, item, queue_max}
use usbproxy.Filter
use usbproxy.Filter.{matches, test_setup_packet}
use usbproxy.Relay.Writer.{Plugin, Reply, dropped, replied, write_setup, transfer, filter_out_all}
use usbproxy.Relay.Writer.Replies.{write_setup-out_reply}
use usbproxy.Relay.Reader.{Received, no_data, buffer, got_setup, request_round}
use usbproxy.Relay.Reader.ZeroLength.{read_rounds, squash, read_rounds-squash}
use usbproxy.Relay.Control.{System, start, Step, asks, Reach, here, next}
use usbproxy.Relay.Control.OneRequest.{OneAtATime, Reach-OneAtATime}
use usbproxy.Relay.Control.Dropped.{dropped-no-Step}

-- A device that takes every request, and gives no data.
abbrev accepting : Unit {0} → CtrlRequest → Option Bytes → Unit {0} × Reply
accepting w r bytes = (w, record { success = true; nbytes = none; reply_bytes = some [] })

-- A filter that keeps every request from the device.
abbrev silencer : Plugin (Unit {0})
silencer = record {
  base = Filter.init;
  filter_packet = λ w p. (w, p);
  filter_setup_packet = λ w s out. (w, record s { transmit_out = false });
}

-- A filter that changes nothing.
abbrev watcher : Plugin (Unit {0})
watcher = record {
  base = Filter.init;
  filter_packet = λ w p. (w, p);
  filter_setup_packet = λ w s out. (w, s);
}

abbrev set_address : CtrlRequest
set_address = record { request_type = 0; request = 5; value = 3; index = 0; length = 0 }

abbrev asked : System (Unit {0})
asked = record (start tt) {
  reader = (request_round (start tt).reader (start tt).to_writer (got_setup set_address none)).0;
  to_writer = (request_round (start tt).reader (start tt).to_writer (got_setup set_address none)).1;
}

asked-Reach : (fs : List (Plugin (Unit {0}))) → Reach accepting fs (start tt) asked
asked-Reach fs = next here (asks (got_setup set_address none) refl)

Reach-OneAtATime_example : OneAtATime asked
Reach-OneAtATime_example =
    Reach-OneAtATime accepting (silencer ∷ []) tt asked (asked-Reach (silencer ∷ []))

asked-dequeue : dequeue asked.to_writer ≡ item (setup (new_setup set_address none)) Queue.init
unfolding dequeue take_from request_round enqueue push_bounded Queue.init
asked-dequeue = refl

silencer-dropped :
    write_setup accepting (silencer ∷ []) tt 0 (new_setup set_address none) ≡ ok (tt, 0, dropped)
unfolding write_setup filter_out_all test_setup_packet matches Filter.init new_setup
silencer-dropped = refl

dropped-no-Step_example :
    let t : System (Unit {0}) = record asked { to_writer = Queue.init; world = tt; len = 0 } in
    Step accepting (silencer ∷ []) asked t
    × ((u : System (Unit {0})) → ¬ Step accepting (silencer ∷ []) t u)
dropped-no-Step_example =
    dropped-no-Step accepting (silencer ∷ []) tt asked (new_setup set_address none) Queue.init tt 0
      (asked-Reach (silencer ∷ [])) asked-dequeue silencer-dropped

watcher-passes :
    filter_out_all (watcher ∷ []) tt (new_setup set_address none)
    ≡ ok (tt, new_setup set_address none, [])
unfolding filter_out_all test_setup_packet matches Filter.init new_setup
watcher-passes = refl

write_setup-out_reply_example :
    let t = transfer accepting (watcher ∷ []) [] tt 0 (new_setup set_address none) in
    write_setup accepting (watcher ∷ []) tt 0 (new_setup set_address none)
    ≡ ok (t.0, t.1, replied t.2 t.3)
unfolding new_setup
write_setup-out_reply_example =
    write_setup-out_reply accepting (watcher ∷ []) tt tt 0 (new_setup set_address none)
      (new_setup set_address none) [] refl watcher-passes refl refl refl refl

abbrev arrivals : List Received
arrivals = buffer [] ∷ no_data ∷ buffer [] ∷ buffer (7 ∷ []) ∷ buffer [] ∷ buffer [] ∷ []

read_rounds-squash_example : (read_rounds 0x81 Queue.init 0 arrivals).q ≡ squash 0x81 false arrivals
read_rounds-squash_example = read_rounds-squash 0x81 arrivals (omega arith)
