-- ===== src/Tests/Queues.antt =====
-- lib/SafeQueue.hpp on small inputs.
use usbproxy.Base.{ℕ, ◌*◌, ◌≤◌, ◌≡◌, Bool, true, false, List, [], ◌∷◌, ◌++◌, arith, take}
use usbproxy.Queue.{init, size, queue_max, enqueue, enqueue_priority}
use usbproxy.Queue.Bounds.{puts, gets, wakes, destroys, IsBounded, run, run-size-IsBounded}
use usbproxy.Queue.Order.{feed, drain, sent_to, drain-feed}

abbrev calls : List (Bool × ℕ)
calls = (false, 1) ∷ (true, 2) ∷ (false, 3) ∷ []

run-size-IsBounded_example :
    IsBounded (run (init {A = ℕ}) (puts 1 ∷ gets ∷ wakes ∷ destroys ∷ []))
    × (size (run (init {A = ℕ}) (puts 1 ∷ gets ∷ wakes ∷ destroys ∷ [])) ≤ 2 * queue_max)
run-size-IsBounded_example = run-size-IsBounded (puts 1 ∷ gets ∷ wakes ∷ destroys ∷ [])

fed : size (feed (init {A = ℕ}) calls) ≤ 3
unfolding feed size enqueue enqueue_priority init
fed = omega arith

drain-feed_example :
    drain 3 (feed init calls)
    ≡ take queue_max (sent_to true calls) ++ take queue_max (sent_to false calls)
drain-feed_example = drain-feed 3 calls fed
