-- ===== src/Relay/Reader/ZeroLength.antt =====
-- The zero-length packets that the reader of a data endpoint passes on.
use usbproxy.Base.{
  ℕ, suc, ◌+◌, ◌^◌, ◌≤◌, ◌<◌, ◌≡◌, refl, sym, ap, ◌∙◌, ◌≢◌, inl, inr, Bool, true, false, not, List,
  [], ◌∷◌, ◌++◌, append-nil, append_assoc, arith, leb, ◌==◌, leb→le, Bool-cases, length,
  length-append,
}
use usbproxy.Packet.{PacketPtr, plain, new_packet}
use usbproxy.Queue
use usbproxy.Queue.{SafeQueue, enqueue, empty, is_nil, push_bounded, queue_max}
use usbproxy.Relay.Reader.{Received, no_data, buffer, read_round}

-- Rounds of the reader, while the writer takes nothing from the queue.
abbrev pub read_rounds : ℕ → SafeQueue PacketPtr → ℕ → List Received → SafeQueue PacketPtr
read_rounds endpoint q zlp [] = q
read_rounds endpoint q zlp (r ∷ rs) =
    let s = read_round endpoint q zlp r in read_rounds endpoint s.0 s.1 rs

-- The packets in what was received, with each run of zero-length packets made one; the flag says
-- that the last was such a packet.
abbrev pub squash : ℕ → Bool → List Received → List PacketPtr
squash endpoint z [] = []
squash endpoint z (no_data ∷ rs) = squash endpoint z rs
squash endpoint z (buffer (b ∷ bs) ∷ rs) =
    plain (new_packet endpoint (b ∷ bs) (length (b ∷ bs))) ∷ squash endpoint false rs
squash endpoint true (buffer [] ∷ rs) = squash endpoint true rs
squash endpoint false (buffer [] ∷ rs) = plain (new_packet endpoint [] 0) ∷ squash endpoint true rs

abbrev line_of : Bool → List PacketPtr → SafeQueue PacketPtr
line_of d xs = record { q = xs; q_priority = []; destruct = d }

enqueue-room :
    (d : Bool) (xs : List PacketPtr) (p : PacketPtr)
    → length xs < queue_max
    → enqueue (line_of d xs) p ≡ line_of d (xs ++ (p ∷ []))
unfolding enqueue push_bounded
enqueue-room d [] p h = refl
enqueue-room d (x ∷ xs) p h = elim (Bool-cases (leb queue_max (length (x ∷ xs)))) [
  | inl full ↦ absurd (omega (arith, leb→le _ _ full))
  | inr room ↦ rw room refl
]

empty-line : (d : Bool) (x : PacketPtr) (xs : List PacketPtr) → empty (line_of d (x ∷ xs)) ≡ false
unfolding empty is_nil
empty-line d x xs = refl

append-cons :
    (xs : List PacketPtr) (p : PacketPtr) (ys : List PacketPtr)
    → (xs ++ (p ∷ [])) ++ ys ≡ xs ++ (p ∷ ys)
append-cons xs p ys = append_assoc xs (p ∷ []) ys

read_round-first :
    (endpoint : ℕ) (q : SafeQueue PacketPtr) (zlp : ℕ)
    → (zlp == 0) ≡ true
    → suc zlp < 2 ^ 32
    → read_round endpoint q zlp (buffer [])
      ≡ (enqueue q (plain (new_packet endpoint [] 0)), suc zlp)
unfolding read_round
read_round-first endpoint q zlp e h = ground arith

read_round-later :
    (endpoint : ℕ) (d : Bool) (x : PacketPtr) (xs : List PacketPtr) (zlp : ℕ)
    → (zlp == 0) ≡ false
    → suc zlp < 2 ^ 32
    → read_round endpoint (line_of d (x ∷ xs)) zlp (buffer []) ≡ (line_of d (x ∷ xs), suc zlp)
unfolding read_round empty is_nil
read_round-later endpoint d x xs zlp e h = ground arith

suc-positive : (n : ℕ) → (suc n == 0) ≡ false
suc-positive n = ground arith

read_rounds-line :
    (endpoint : ℕ) (d : Bool) (zlp : ℕ) (z : Bool) (rs : List Received) (xs : List PacketPtr)
    → length xs + length rs ≤ queue_max
    → zlp + length rs < 2 ^ 32
    → (zlp == 0) ≡ not z
    → ((z ≡ true) → length xs ≢ 0)
    → (read_rounds endpoint (line_of d xs) zlp rs).q ≡ xs ++ squash endpoint z rs
unfolding read_round
read_rounds-line endpoint d zlp z [] xs room small e some_left = sym (append-nil xs)
read_rounds-line endpoint d zlp z (no_data ∷ rs) xs room small e some_left =
    read_rounds-line endpoint d zlp z rs xs (omega arith) (omega arith) e some_left
read_rounds-line endpoint d zlp z (buffer (b ∷ bs) ∷ rs) xs room small e some_left =
    let p = plain (new_packet endpoint (b ∷ bs) (length (b ∷ bs))) in
    ap (λ q. (read_rounds endpoint q 0 rs).q) (enqueue-room d xs p (omega arith))
    ∙ read_rounds-line endpoint d 0 false rs (xs ++ (p ∷ []))
        (omega (arith, length-append xs (p ∷ []))) (omega arith) refl (λ t. absurd (cc t))
    ∙ append-cons xs p (squash endpoint false rs)
read_rounds-line endpoint d zlp false (buffer [] ∷ rs) xs room small e some_left =
    let p = plain (new_packet endpoint [] 0) in
    let first : read_round endpoint (line_of d xs) zlp (buffer [])
        ≡ (line_of d (xs ++ (p ∷ [])), suc zlp) =
      read_round-first endpoint (line_of d xs) zlp e (omega arith)
      ∙ ap (λ q. (q, suc zlp)) (enqueue-room d xs p (omega arith)) in
    ap (λ s. (read_rounds endpoint s.0 s.1 rs).q) first
    ∙ read_rounds-line endpoint d (suc zlp) true rs (xs ++ (p ∷ []))
        (omega (arith, length-append xs (p ∷ []))) (omega arith) (suc-positive zlp)
        (λ t n. omega (arith, length-append xs (p ∷ [])))
    ∙ append-cons xs p (squash endpoint true rs)
read_rounds-line endpoint d zlp true (buffer [] ∷ rs) [] room small e some_left =
    absurd (some_left refl refl)
read_rounds-line endpoint d zlp true (buffer [] ∷ rs) (x ∷ xs) room small e some_left =
    ap (λ s. (read_rounds endpoint s.0 s.1 rs).q)
      (read_round-later endpoint d x xs zlp e (omega arith))
    ∙ read_rounds-line endpoint d (suc zlp) true rs (x ∷ xs) (omega arith) (omega arith)
        (suc-positive zlp) some_left

-- While the writer takes nothing, and for as long as the queue has room, the reader of a data
-- endpoint queues what it receives in order, with each run of zero-length packets made one.
pub read_rounds-squash :
    (endpoint : ℕ) (rs : List Received)
    → length rs ≤ queue_max
    → (read_rounds endpoint Queue.init 0 rs).q ≡ squash endpoint false rs
unfolding Queue.init
read_rounds-squash endpoint rs room =
    read_rounds-line endpoint false 0 false rs [] (omega arith) (omega arith) refl
      (λ t. absurd (cc t))
