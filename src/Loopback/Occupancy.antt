-- ===== src/Loopback/Occupancy.antt =====
-- The ring as a bounded counter.
use usbproxy.Base.{
  ℕ, ◌+◌, ◌-◌, ◌%◌, ◌≤◌, ◌<◌, min, ◌≡◌, refl, subst, ◌∙◌, ◌⊎◌, inl, inr, true, false, ◌&&◌, not,
  Option, none, some, List, [], ◌∷◌, arith, ltb, ◌==◌, ==_iff, below, Bool-cases, length, set,
  replicate, length-set, length-replicate, All, All-get_elem?, All-set, All-replicate, Bytes,
}
use usbproxy.Result.{Result, ◌>>=◌, ok}
use usbproxy.Loopback.{reset, Ring, Pkt, buf_len, empty_pkt, connect, send_data, receive_data}

-- No entry has a length or data.
abbrev pub IsBlank : Pkt → Type 0
IsBlank p = (p.length ≡ 0) × (p.data_bytes ≡ none)

-- A connected ring that counts `n` packets, all of them blank.
pub record Counts (r : Ring) (n : ℕ) : Type 0 where
  pub entries : List Pkt
  pub stored : r.buffer ≡ some entries
  pub size : length entries ≡ buf_len
  pub blank : All IsBlank entries
  pub head_small : r.head < buf_len
  pub count_small : n ≤ buf_len
  pub distance : r.tail ≡ (r.head + n) % buf_len
  pub at_zero : n ≡ 0 → r.full ≡ false
  pub at_limit : n ≡ buf_len → r.full ≡ true

connect-Counts : (r : Ring) → Counts (connect r) 0
unfolding connect
connect-Counts r = record {
  entries = replicate buf_len empty_pkt;
  stored = refl;
  size = length-replicate buf_len empty_pkt;
  blank = All-replicate IsBlank buf_len empty_pkt (refl, refl);
  head_small = omega arith;
  count_small = omega arith;
  distance = refl;
  at_zero = λ e. refl;
  at_limit = λ e. absurd (omega arith);
}

blocked : (r : Ring) (n : ℕ) → Counts r n → (r.head == r.tail && r.full) ≡ (n == buf_len)
blocked r n c = elim (Bool-cases (n == buf_len)) [
  | inl limit ↦
      let same : n ≡ buf_len = (==_iff n buf_len).0 limit in
      ground (arith, c.at_limit same, c.distance, c.head_small, c.count_small)
  | inr below ↦ elim (Bool-cases (n == 0)) [
    | inl nothing ↦ ground (arith, c.at_zero ((==_iff n 0).0 nothing))
    | inr something ↦ ground (arith, c.distance, c.head_small, c.count_small)
  ]
]

drained : (r : Ring) (n : ℕ) → Counts r n → (r.head == r.tail && not r.full) ≡ (n == 0)
drained r n c = elim (Bool-cases (n == buf_len)) [
  | inl limit ↦
      let same : n ≡ buf_len = (==_iff n buf_len).0 limit in
      ground (arith, c.at_limit same, c.distance, c.head_small, c.count_small)
  | inr below ↦ elim (Bool-cases (n == 0)) [
    | inl nothing ↦ ground (arith, c.at_zero ((==_iff n 0).0 nothing), c.distance, c.head_small)
    | inr something ↦ ground (arith, c.distance, c.head_small, c.count_small)
  ]
]

tail_small : (r : Ring) (n : ℕ) → Counts r n → r.tail < buf_len
tail_small r n c = omega (arith, c.distance)

send_data-Counts :
    (r : Ring) (bytes : Bytes) (n : ℕ)
    → Counts r n
    → (r' : Ring) × (send_data r bytes ≡ ok r') × Counts r' (min buf_len (n + 1))
unfolding send_data
send_data-Counts r bytes n c = elim (Bool-cases (n == buf_len)) [
  | inl limit ↦
      let stays : n ≡ min buf_len (n + 1) = omega (arith, (==_iff n buf_len).0 limit) in
      (r, rw (blocked r n c, limit) refl, subst (λ k. Counts r k) stays c)
  | inr below ↦
      let small : r.tail < buf_len = tail_small r n c in
      let (p, found, blank) =
        All-get_elem? IsBlank c.entries r.tail (omega (arith, c.size)) c.blank in
      let fits : ltb r.tail (length c.entries) ≡ true = ground (arith, c.size) in
      let blanked : Pkt = record p { data_bytes = none } in
      let tail' = (r.tail + 1) % buf_len in
      (
        record r {
          buffer = some (set c.entries r.tail blanked);
          tail = tail';
          full = r.head == tail';
        },
        rw (blocked r n c, below, c.stored, found, fits) refl,
        record {
          entries = set c.entries r.tail blanked;
          stored = refl;
          size = length-set c.entries r.tail blanked ∙ c.size;
          blank = All-set IsBlank c.entries r.tail blanked c.blank (blank.0, refl);
          head_small = c.head_small;
          count_small = omega arith;
          distance = ground (arith, c.distance, c.count_small);
          at_zero = λ e. absurd (omega arith);
          at_limit = λ e. ground (arith, c.distance, c.head_small, c.count_small);
        },
      )
]

receive_data-Counts :
    (r : Ring) (n : ℕ)
    → Counts r n
    → (r' : Ring) × (d : Option (Option Bytes)) × (receive_data r ≡ ok (r', d, 0))
      × ((d ≡ none) ⊎ (d ≡ some none))
      × Counts r' (n - 1)
unfolding receive_data
receive_data-Counts r n c = elim (Bool-cases (n == 0)) [
  | inl nothing ↦
      let stays : n ≡ n - 1 = omega (arith, (==_iff n 0).0 nothing) in
      (r, none, rw (drained r n c, nothing) refl, inl refl, subst (λ k. Counts r k) stays c)
  | inr something ↦
      let (p, found, blank) =
        All-get_elem? IsBlank c.entries r.head (omega (arith, c.size, c.head_small)) c.blank in
      let head' = (r.head + 1) % buf_len in
      (
        record r { head = head'; full = not (head' == r.tail) },
        some none,
        rw (drained r n c, something, c.stored, found, blank.0, blank.1) refl,
        inr refl,
        record {
          entries = c.entries;
          stored = c.stored;
          size = c.size;
          blank = c.blank;
          head_small = omega arith;
          count_small = omega (arith, c.count_small);
          distance = ground (arith, c.distance, c.count_small);
          at_zero = λ e. ground (arith, c.distance, c.head_small, c.count_small);
          at_limit = λ e. absurd (omega (arith, c.count_small));
        },
      )
]

reset-Counts : (r : Ring) (n : ℕ) → Counts r n → Counts (reset r) 0
unfolding reset
reset-Counts r n c = record {
  entries = c.entries;
  stored = c.stored;
  size = c.size;
  blank = c.blank;
  head_small = omega arith;
  count_small = omega arith;
  distance = refl;
  at_zero = λ e. refl;
  at_limit = λ e. absurd (omega arith);
}

-- What is asked of a connected device.
pub data Op : Type 0 where
  sends : Bytes → Op
  receives : Op
  resets : Op

-- The ring afterwards, and the lengths of what was received.
abbrev pub run : Ring → List Op → Result (Ring × List ℕ)
run r [] = ok (r, [])
run r (sends bytes ∷ ops) = do r' ← send_data r bytes; run r' ops
run r (receives ∷ ops) = do a ← receive_data r; b ← run a.0 ops; ok (b.0, a.2 ∷ b.1)
run r (resets ∷ ops) = run (reset r) ops

-- The number of packets that a ring of `buf_len` places holds.
abbrev pub level : ℕ → List Op → ℕ
level n [] = n
level n (sends bytes ∷ ops) = level (min buf_len (n + 1)) ops
level n (receives ∷ ops) = level (n - 1) ops
level n (resets ∷ ops) = level 0 ops

run-Counts :
    (r : Ring) (n : ℕ) (ops : List Op)
    → Counts r n
    → (r' : Ring) × (lengths : List ℕ) × (run r ops ≡ ok (r', lengths))
      × Counts r' (level n ops)
      × All (λ k. k ≡ 0) lengths
run-Counts r n [] c = (r, [], refl, c, tt)
run-Counts r n (sends bytes ∷ ops) c =
    let (r', e, c') = send_data-Counts r bytes n c in
    let (r'', ls, e', c'', z) = run-Counts r' (min buf_len (n + 1)) ops c' in
    (r'', ls, rw e e', c'', z)
run-Counts r n (receives ∷ ops) c =
    let (r', d, e, nothing, c') = receive_data-Counts r n c in
    let (r'', ls, e', c'', z) = run-Counts r' (n - 1) ops c' in
    (r'', 0 ∷ ls, rw (e, e') refl, c'', (refl, z))
run-Counts r n (resets ∷ ops) c = run-Counts (reset r) 0 ops (reset-Counts r n c)

-- A connected device never fails. Its ring counts the packets as a queue of 100 places does: a
-- packet is dropped when it is full. But no byte ever comes back: each packet received is empty.
pub run-connect :
    (r : Ring) (ops : List Op)
    → (r' : Ring) × (lengths : List ℕ) × (run (connect r) ops ≡ ok (r', lengths))
      × Counts r' (level 0 ops)
      × All (λ k. k ≡ 0) lengths
run-connect r ops = run-Counts (connect r) 0 ops (connect-Counts r)
