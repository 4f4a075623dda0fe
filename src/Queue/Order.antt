-- ===== src/Queue/Order.antt =====
-- The order in which items leave the queue.
use usbproxy.Base.{
  ℕ, zero, suc, ◌+◌, ◌≤◌, ◌≡◌, refl, sym, ap, ap₂, subst, ◌∙◌, inl, inr, Bool, true, false, List,
  [], ◌∷◌, ◌++◌, append-nil, append_assoc, arith, leb, if◌then◌else◌, leb→le, Bool-cases, length,
  take, length-append, take_all,
}
use usbproxy.Queue.{
  SafeQueue, waits, null, item, init, push_bounded, enqueue, enqueue_priority, dequeue, queue_max,
  take_from, size,
}
use usbproxy.Queue.Bounds.{length-push_bounded}

module _ {ℓ} {A : Type ℓ} where
  take_append_take : (n : ℕ) (xs ys : List A) → take n (take n xs ++ ys) ≡ take n (xs ++ ys)
  take_append_take zero xs ys = refl
  take_append_take (suc n) [] ys = refl
  take_append_take (suc n) (x ∷ xs) ys = ap (◌∷◌ x) (take_append_take n xs ys)

  take_full : (n : ℕ) (xs ys : List A) → n ≤ length xs → take n (xs ++ ys) ≡ take n xs
  take_full zero xs ys h = refl
  take_full (suc n) [] ys h = absurd (omega arith)
  take_full (suc n) (x ∷ xs) ys h = ap (◌∷◌ x) (take_full n xs ys (omega arith))

  bounded_append : ℕ → List A → A → List A
  bounded_append n xs t = if leb n (length xs) then xs else xs ++ (t ∷ [])

  bounded_append-take :
      (n : ℕ) (xs : List A) (t : A)
      → length xs ≤ n
      → bounded_append n xs t ≡ take n (xs ++ (t ∷ []))
  unfolding bounded_append
  bounded_append-take n xs t h = elim (Bool-cases (leb n (length xs))) [
    | inl e ↦ rw e (sym (take_full n xs (t ∷ []) (leb→le _ _ e) ∙ take_all n xs h))
    | inr e ↦ rw e (sym (take_all n (xs ++ (t ∷ [])) (ground (arith, length-append xs (t ∷ [])))))
  ]

  push_bounded-append : (xs : List A) (t : A) → push_bounded xs t ≡ bounded_append queue_max xs t
  unfolding push_bounded bounded_append
  push_bounded-append [] t = refl
  push_bounded-append (x ∷ xs) t = refl

  push_bounded-take :
      (xs : List A) (t : A)
      → length xs ≤ queue_max
      → push_bounded xs t ≡ take queue_max (xs ++ (t ∷ []))
  push_bounded-take xs t h = push_bounded-append xs t ∙ bounded_append-take queue_max xs t h

  -- The items that go to one of the two queues, in the order of the calls.
  pub sent_to : Bool → List (Bool × A) → List A
  sent_to b [] = []
  sent_to true ((true, a) ∷ ops) = a ∷ sent_to true ops
  sent_to true ((false, a) ∷ ops) = sent_to true ops
  sent_to false ((true, a) ∷ ops) = sent_to false ops
  sent_to false ((false, a) ∷ ops) = a ∷ sent_to false ops

  -- `true` stands for `enqueuePriority`, `false` for `enqueue`.
  unfoldable pub feed : SafeQueue A → List (Bool × A) → SafeQueue A
  feed s [] = s
  feed s ((true, a) ∷ ops) = feed (enqueue_priority s a) ops
  feed s ((false, a) ∷ ops) = feed (enqueue s a) ops

  push_all : List A → List A → List A
  push_all acc [] = acc
  push_all acc (x ∷ xs) = push_all (push_bounded acc x) xs

  push_all-take :
      (acc xs : List A) → length acc ≤ queue_max → push_all acc xs ≡ take queue_max (acc ++ xs)
  unfolding push_all
  push_all-take acc [] h = rw append-nil (sym (take_all queue_max acc h))
  push_all-take acc (x ∷ xs) h =
      push_all-take (push_bounded acc x) xs (length-push_bounded acc x h)
      ∙ ap (λ l. take queue_max (l ++ xs)) (push_bounded-take acc x h)
      ∙ take_append_take queue_max (acc ++ (x ∷ [])) xs
      ∙ ap (take queue_max) (append_assoc acc (x ∷ []) xs)

  feed-push_all :
      (s : SafeQueue A) (ops : List (Bool × A))
      → feed s ops ≡ record s {
        q = push_all s.q (sent_to false ops);
        q_priority = push_all s.q_priority (sent_to true ops);
      }
  unfolding feed push_all sent_to enqueue enqueue_priority
  feed-push_all s [] = refl
  feed-push_all s ((true, a) ∷ ops) = feed-push_all (enqueue_priority s a) ops
  feed-push_all s ((false, a) ∷ ops) = feed-push_all (enqueue s a) ops

  -- The items that at most `fuel` calls of `dequeue` return, before one waits.
  pub drain : ℕ → SafeQueue A → List A
  drain zero s = []
  drain (suc fuel) s = elim (dequeue s) [ waits ↦ [] | null ↦ [] | item a s' ↦ a ∷ drain fuel s' ]

  drain-contents :
      (fuel : ℕ) (high low : List A) (d : Bool)
      → length low + length high ≤ fuel
      → drain fuel (record { q = low; q_priority = high; destruct = d }) ≡ high ++ low
  unfolding drain dequeue take_from
  drain-contents zero [] [] d h = refl
  drain-contents zero [] (x ∷ low) d h = absurd (omega arith)
  drain-contents zero (x ∷ high) low d h = absurd (omega arith)
  drain-contents (suc fuel) (x ∷ high) low d h =
      ap (◌∷◌ x) (drain-contents fuel high low d (omega arith))
  drain-contents (suc fuel) [] (x ∷ low) d h =
      ap (◌∷◌ x) (drain-contents fuel [] low d (omega arith))
  drain-contents (suc fuel) [] [] d h = refl

  -- Whatever the order of the calls, enough `dequeue`s return the first 10000 priority items and
  -- then the first 10000 normal ones, each in the order they were queued: priority items overtake,
  -- and what exceeds the bound of its own queue is dropped.
  pub drain-feed :
      (fuel : ℕ) (ops : List (Bool × A))
      → size (feed init ops) ≤ fuel
      → drain fuel (feed init ops)
        ≡ take queue_max (sent_to true ops) ++ take queue_max (sent_to false ops)
  unfolding init size
  drain-feed fuel ops h =
      ap (drain fuel) (feed-push_all init ops)
      ∙ drain-contents fuel _ _ false (subst (λ s. size s ≤ fuel) (feed-push_all init ops) h)
      ∙ ap₂ ◌++◌ (push_all-take [] (sent_to true ops) (omega arith))
          (push_all-take [] (sent_to false ops) (omega arith))
