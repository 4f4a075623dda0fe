-- ===== src/Filter/Matching.antt =====
-- What the two tests decide.
use usbproxy.Base.{
  ℕ, zero, suc, ◌+◌, ◌≤◌, ◌<◌, ◌≡◌, refl, ◌↔◌, inl, inr, Bool, true, false, some, [], ◌∷◌, arith,
  ltb, leb, ◌==◌, if◌then◌else◌, ltb→lt, ==_iff, Bool-cases, length, replicate, Bytes,
}
use Prim.Native.Nat.{bit_and, bit_and-bitwise}
use usbproxy.Result.{ok}
use usbproxy.Packet.{Packet, SetupPacket}
use usbproxy.Filter.{
  PacketFilter, init, set_packet_filter, matches, bytes_of, test_packet, test_setup_packet,
  last_nonzero,
}

-- The masked comparison holds at the first `n` positions.
abbrev pub Agree : ℕ → Bytes → Bytes → Bytes → Type 0
Agree zero ms hs ds = Unit {0}
Agree (suc n) (m ∷ ms) (h ∷ hs) (d ∷ ds) = (bit_and m d ≡ bit_and m h) × Agree n ms hs ds
Agree (suc n) ms hs ds = ⊥

bit_and-zero_left : (d : ℕ) → bit_and 0 d ≡ 0
bit_and-zero_left d = bit_and-bitwise 0 d

matches-Agree :
    (n : ℕ) (ms hs ds : Bytes)
    → n ≤ length ms
    → n ≤ length hs
    → n ≤ length ds
    → (b : Bool) × (matches n ms hs ds ≡ ok b) × ((b ≡ true) ↔ Agree n ms hs ds)
unfolding matches
matches-Agree zero ms hs ds hm hh hd = (true, refl, (λ _. tt, λ _. refl))
matches-Agree (suc n) [] hs ds hm hh hd = absurd (omega arith)
matches-Agree (suc n) (m ∷ ms) [] ds hm hh hd = absurd (omega arith)
matches-Agree (suc n) (m ∷ ms) (h ∷ hs) [] hm hh hd = absurd (omega arith)
matches-Agree (suc n) (m ∷ ms) (h ∷ hs) (d ∷ ds) hm hh hd =
    let (b, e, f) = matches-Agree n ms hs ds (omega arith) (omega arith) (omega arith) in
    elim (Bool-cases (m == 0)) [
      | inl off ↦
          let zero_mask : bit_and m d ≡ bit_and m h =
            rw ((==_iff m 0).0 off, bit_and-zero_left d, bit_and-zero_left h) in
          (b, rw off e, (λ t. (zero_mask, f.0 t), λ a. f.1 a.1))
      | inr on ↦ elim (Bool-cases (bit_and m d == bit_and m h)) [
        | inl same ↦ (b, rw (on, same) e, (λ t. ((==_iff _ _).0 same, f.0 t), λ a. f.1 a.1))
        | inr other ↦ (false, rw (on, other), (λ t. cc, λ a. ground arith))
      ]
    ]

-- A filter as the constructor makes it: arrays of eight bytes, and a length within them.
pub record IsValid (f : PacketFilter) : Type 0 where
  pub header : length f.packet_header ≡ 8
  pub mask : length f.packet_header_mask ≡ 8
  pub limit : f.packet_header_mask_length ≤ 8

-- `test_packet` passes a packet exactly when it is as long as the mask length, and agrees with the
-- header under the mask at each position below the mask length. It reads nothing out of bounds,
-- when the packet has as many bytes as its length says.
pub test_packet_iff :
    (f : PacketFilter) (p : Packet) (ds : Bytes)
    → IsValid f
    → p.data_bytes ≡ some ds
    → length ds ≡ p.length
    → (b : Bool) × (test_packet f p ≡ ok b)
      × ((b ≡ true) ↔ (
          (f.packet_header_mask_length ≤ p.length)
          × Agree f.packet_header_mask_length f.packet_header_mask f.packet_header ds))
unfolding test_packet
test_packet_iff f p ds v e l = elim (Bool-cases (ltb p.length f.packet_header_mask_length)) [
  | inl short ↦ (false, rw short, (λ t. cc, λ a. absurd (omega (arith, ltb→lt _ _ short, a.0))))
  | inr long ↦
      let fits : f.packet_header_mask_length ≤ p.length = ground arith in
      let (b, m, iff) =
        matches-Agree f.packet_header_mask_length f.packet_header_mask f.packet_header ds
          (omega (arith, v.mask, v.limit)) (omega (arith, v.header, v.limit)) (omega arith) in
      (b, rw (long, e) m, (λ t. (fits, iff.0 t), λ a. iff.1 a.1))
]

-- `test_setup_packet` gives the same answer for both directions, whatever the two flags say that
-- should choose between them.
pub test_setup_packet-direction :
    (f : PacketFilter) (p : SetupPacket) (setup_out setup_in d d' : Bool)
    → test_setup_packet
        (record f { packet_header_setup_out = setup_out; packet_header_setup_in = setup_in })
        p
        d
      ≡ test_setup_packet f p d'
unfolding test_setup_packet
test_setup_packet-direction f p setup_out setup_in d d' = ground arith

matches-zeros :
    (n k : ℕ) (ds : Bytes) → n ≤ k → matches n (replicate k 0) (replicate k 0) ds ≡ ok true
unfolding matches
matches-zeros zero k ds h = refl
matches-zeros (suc n) zero ds h = absurd (omega arith)
matches-zeros (suc n) (suc k) [] h = matches-zeros n k [] (omega arith)
matches-zeros (suc n) (suc k) (d ∷ ds) h = matches-zeros n k ds (omega arith)

last_nonzero_bound :
    (i found : ℕ) (ms : Bytes) → found < i + length ms → last_nonzero i found ms < i + length ms
unfolding last_nonzero
last_nonzero_bound i found [] h = h
last_nonzero_bound i found (m ∷ ms) h =
    omega (arith, last_nonzero_bound (suc i) (if m == 0 then found else i) ms (ground arith))

-- On a fresh filter `set_packet_filter` has no effect but to demand a length below 8: the
-- filter then passes every packet of that length, whatever header and mask were given.
pub set_packet_filter-passes :
    (header mask : Bytes) (p : Packet)
    → length mask ≡ 8
    → let f = set_packet_filter init header mask in
      (f.packet_header_mask_length < 8)
      × (test_packet f p ≡ ok (leb f.packet_header_mask_length p.length))
unfolding test_packet set_packet_filter init
set_packet_filter-passes header mask p h =
    let bound : last_nonzero 0 1 mask < 8 =
      omega (arith, last_nonzero_bound 0 1 mask (omega arith)) in
    (bound, ground (arith, matches-zeros (last_nonzero 0 1 mask) 8 (bytes_of p.data_bytes)))
