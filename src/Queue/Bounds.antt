-- ===== src/Queue/Bounds.antt =====
-- The bound that the queue keeps, and when a call waits.
use usbproxy.Base.{
  ◌+◌, ◌*◌, ◌≤◌, ◌≡◌, refl, ◌≢◌, ◌↔◌, Bool, true, false, ◌&&◌, List, [], ◌∷◌, arith, length,
  length-append,
}
use usbproxy.Queue.{
  SafeQueue, Dequeued, waits, null, item, init, push_bounded, enqueue, enqueue_priority, dequeue,
  resume, empty, size, destroy, queue_max, take_from, is_nil,
}

pub record IsBounded {ℓ} {A : Type ℓ} (s : SafeQueue A) : Type 0 where
  pub normal : length s.q ≤ queue_max
  pub priority : length s.q_priority ≤ queue_max

pub data Op {ℓ} (A : Type ℓ) : Type ℓ where
  puts puts_priority : A → Op A
  gets wakes destroys : Op A

module _ {ℓ} {A : Type ℓ} where
  -- A call that waits leaves the queue as it was; so does one that gives up.
  unfoldable pub left_by : SafeQueue A → Dequeued A → SafeQueue A
  left_by s waits = s
  left_by s null = s
  left_by s (item a s') = s'

  pub step : SafeQueue A → Op A → SafeQueue A
  unfolding left_by
  step s (puts t) = enqueue s t
  step s (puts_priority t) = enqueue_priority s t
  step s gets = left_by s (dequeue s)
  step s wakes = left_by s (resume s)
  step s destroys = destroy s

  pub run : SafeQueue A → List (Op A) → SafeQueue A
  run s [] = s
  run s (o ∷ os) = run (step s o) os

  pub length-push_bounded :
      (xs : List A) (t : A) → length xs ≤ queue_max → length (push_bounded xs t) ≤ queue_max
  unfolding push_bounded
  length-push_bounded [] t h = omega arith
  length-push_bounded (x ∷ xs) t h = ground (arith, length-append (x ∷ xs) (t ∷ []))

  take_from-IsBounded :
      (s : SafeQueue A) (high low : List A) (d : Bool)
      → length high ≤ queue_max
      → length low ≤ queue_max
      → IsBounded s
      → IsBounded (left_by s (take_from high low d))
  unfolding left_by take_from
  take_from-IsBounded s (x ∷ high) low d h l b = record { normal = l; priority = omega arith }
  take_from-IsBounded s [] (x ∷ low) d h l b = record { normal = omega arith; priority = h }
  take_from-IsBounded s [] [] d h l b = b

  dequeue-IsBounded : (s : SafeQueue A) → IsBounded s → IsBounded (left_by s (dequeue s))
  unfolding dequeue
  dequeue-IsBounded s b = take_from-IsBounded s s.q_priority s.q s.destruct b.priority b.normal b

  resume-IsBounded :
      (s : SafeQueue A) (d : Bool) → s.destruct ≡ d → IsBounded s → IsBounded (left_by s (resume s))
  unfolding resume left_by
  resume-IsBounded s true e b = ground arith
  resume-IsBounded s false e b = ground (arith, dequeue-IsBounded s b)

  step-IsBounded : (s : SafeQueue A) (o : Op A) → IsBounded s → IsBounded (step s o)
  unfolding step enqueue enqueue_priority destroy
  step-IsBounded s (puts t) b = record {
    normal = length-push_bounded s.q t b.normal;
    priority = b.priority;
  }
  step-IsBounded s (puts_priority t) b = record {
    normal = b.normal;
    priority = length-push_bounded s.q_priority t b.priority;
  }
  step-IsBounded s gets b = dequeue-IsBounded s b
  step-IsBounded s wakes b = resume-IsBounded s s.destruct refl b
  step-IsBounded s destroys b = record { normal = b.normal; priority = b.priority }

  run-IsBounded : (s : SafeQueue A) (os : List (Op A)) → IsBounded s → IsBounded (run s os)
  unfolding run
  run-IsBounded s [] b = b
  run-IsBounded s (o ∷ os) b = run-IsBounded (step s o) os (step-IsBounded s o b)

  -- From the queue that the constructor makes, any sequence of calls, wake-ups and a destruction
  -- leaves at most 10000 items in either of the two queues, so at most 20000 by `size`.
  pub run-size-IsBounded :
      (os : List (Op A))
      → IsBounded (run (init {A = A}) os) × (size (run (init {A = A}) os) ≤ 2 * queue_max)
  unfolding size
  run-size-IsBounded os = let b = run-IsBounded init os start in (b, omega arith)
    where
      start : IsBounded (init {A = A})
      start = unfold init in record { normal = omega arith; priority = omega arith }

  empty_iff :
      (low high : List A) → (is_nil low && is_nil high ≡ true) ↔ (length low + length high ≡ 0)
  unfolding is_nil
  empty_iff [] [] = (λ _. refl, λ _. refl)
  empty_iff [] (x ∷ high) = (λ e. cc, λ e. absurd (omega arith))
  empty_iff (y ∷ low) high = (λ e. cc, λ e. absurd (omega arith))

  waits_iff :
      (high low : List A) (d : Bool)
      → (take_from high low d ≡ waits) ↔ (is_nil low && is_nil high ≡ true)
  unfolding is_nil take_from
  waits_iff (x ∷ high) [] d = (λ e. cc, λ e. cc)
  waits_iff (x ∷ high) (y ∷ low) d = (λ e. cc, λ e. cc)
  waits_iff [] (x ∷ low) d = (λ e. cc, λ e. cc)
  waits_iff [] [] d = (λ _. refl, λ _. refl)

  -- `dequeue` waits exactly when `empty` holds, and `empty` holds exactly when `size` is 0.
  pub dequeue-waits_iff :
      (s : SafeQueue A)
      → ((dequeue s ≡ waits) ↔ (empty s ≡ true)) × ((empty s ≡ true) ↔ (size s ≡ 0))
  unfolding dequeue empty size
  dequeue-waits_iff s = (waits_iff s.q_priority s.q s.destruct, empty_iff s.q s.q_priority)

  take_from-size :
      (high low : List A) (d : Bool) (a : A) (s' : SafeQueue A)
      → take_from high low d ≡ item a s'
      → length low + length high ≡ size s' + 1
  unfolding take_from size
  take_from-size (x ∷ high) low d a s' e = ground arith
  take_from-size [] (x ∷ low) d a s' e = ground arith
  take_from-size [] [] d a s' e = cc

  pub size-dequeue :
      (s : SafeQueue A) (a : A) (s' : SafeQueue A) → dequeue s ≡ item a s' → size s ≡ size s' + 1
  unfolding dequeue size
  size-dequeue s a s' e = unfold size in take_from-size s.q_priority s.q s.destruct a s' e

  length-push_bounded_le : (xs : List A) (t : A) → length (push_bounded xs t) ≤ length xs + 1
  unfolding push_bounded
  length-push_bounded_le [] t = omega arith
  length-push_bounded_le (x ∷ xs) t = ground (arith, length-append (x ∷ xs) (t ∷ []))

  pub size-enqueue : (s : SafeQueue A) (a : A) → size (enqueue s a) ≤ size s + 1
  unfolding enqueue size
  size-enqueue s a = omega (arith, length-push_bounded_le s.q a)

  pub dequeue-empty :
      (s : SafeQueue A) (a : A) (s' : SafeQueue A) → size s ≡ 0 → dequeue s ≢ item a s'
  dequeue-empty s a s' h e = omega (arith, size-dequeue s a s' e)
