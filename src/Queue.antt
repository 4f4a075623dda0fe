-- ===== src/Queue.antt =====
-- lib/SafeQueue.hpp. Every method runs under the queue's mutex, so each is one atomic step; a wait
-- on the condition variable ends the step, and waking up is a step of its own. The warnings on a
-- queue that fills up are not modelled.
pub mod Bounds
pub mod Order
use usbproxy.Base.{
  fun_ext, ℕ, zero, suc, ◌+◌, ◌-◌, ◌*◌, ◌/◌, ◌%◌, ◌^◌, ◌≤◌, ◌<◌, min, max, ◌≡◌, refl, sym, ap, ap₂,
  subst, ◌∙◌, ◌≢◌, ◌↔◌, ◌⊎◌, inl, inr, Bool, true, false, ◌&&◌, ◌||◌, not, Option, none, some, List,
  [], ◌∷◌, ◌++◌, map, append-nil, append_assoc, arith, ltb, leb, ◌==◌, if◌then◌else◌, ltb→lt,
  lt→ltb, leb→le, le→leb, lt→leb, ==_iff, ==_refl, ==_ne, if-cases, below, below-holds, Bool-cases,
  Option-cases, length, get_elem?, get_or, set, take, drop, replicate, length-append, length-set,
  get_elem?-set_self, get_elem?-set_ne, get_elem?-none, get_elem?-some, get_elem?-append_left,
  get_elem?-append_right, get_elem?-inside, get_elem?-replicate, get_elem?-take, take-append_length,
  drop-append_length, take-append_left, take_all, length-take, length-drop, length-replicate, All,
  All-append, All-get_elem?, All-set, All-replicate, get_elem?-at, set-at, Bytes, u8, u16, has,
}

abbrev pub queue_max : ℕ
queue_max = 10000

module _ {ℓ} where
  pub record SafeQueue (A : Type ℓ) : Type ℓ where
    pub q : List A
    pub q_priority : List A
    pub destruct : Bool

  -- What `dequeue` does: it waits on the condition, or returns `nullptr` when the queue is being
  -- destroyed, or returns an item.
  pub data Dequeued (A : Type ℓ) : Type ℓ where
    waits : Dequeued A
    null : Dequeued A
    item : A → SafeQueue A → Dequeued A

module _ {ℓ} {A : Type ℓ} where
  unfoldable pub is_nil : List A → Bool
  is_nil [] = true
  is_nil (x ∷ xs) = false

  unfoldable pub init : SafeQueue A
  init = record { q = []; q_priority = []; destruct = false }

  -- `std::queue::push`, behind the check on the size.
  unfoldable pub push_bounded : List A → A → List A
  push_bounded [] t = t ∷ []
  push_bounded (x ∷ xs) t = if leb queue_max (length (x ∷ xs)) then x ∷ xs else (x ∷ xs) ++ (t ∷ [])

  unfoldable pub enqueue : SafeQueue A → A → SafeQueue A
  unfolding push_bounded
  enqueue s t = record s { q = push_bounded s.q t }

  unfoldable pub enqueue_priority : SafeQueue A → A → SafeQueue A
  unfolding push_bounded
  enqueue_priority s t = record s { q_priority = push_bounded s.q_priority t }

  unfoldable pub take_from : List A → List A → Bool → Dequeued A
  take_from (x ∷ high) low d = item x (record { q = low; q_priority = high; destruct = d })
  take_from [] (x ∷ low) d = item x (record { q = low; q_priority = []; destruct = d })
  take_from [] [] d = waits

  -- A call of `dequeue`, up to its first wait.
  unfoldable pub dequeue : SafeQueue A → Dequeued A
  unfolding take_from
  dequeue s = take_from s.q_priority s.q s.destruct

  -- What a waiting `dequeue` does when it wakes up, spuriously or not.
  unfoldable pub resume : SafeQueue A → Dequeued A
  unfolding dequeue
  resume s = if s.destruct then null else dequeue s

  unfoldable pub empty : SafeQueue A → Bool
  unfolding is_nil
  empty s = is_nil s.q && is_nil s.q_priority

  unfoldable pub size : SafeQueue A → ℕ
  size s = length s.q + length s.q_priority

  -- The destructor sets `destruct` and wakes a waiting thread.
  unfoldable pub destroy : SafeQueue A → SafeQueue A
  destroy s = record s { destruct = true }
