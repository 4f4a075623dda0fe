-- ===== src/Tcp/Ports.antt =====
-- The array index of an endpoint.
use mathlib.Core.Bool.{not, not, not, not, not}
use usbproxy.Base.{
  ℕ, ◌+◌, ◌-◌, ◌≤◌, ◌<◌, ◌≡◌, refl, ap, ◌⊎◌, inl, inr, true, false, ◌&&◌, not, arith, ◌==◌, ==_iff,
  both_true, below, below-holds, has,
}
use Prim.Native.Nat.{bit_and, bit_or}
use usbproxy.Tcp.{port_of}

-- An endpoint number, with the bit of the IN direction or without it.
abbrev pub IsEndpoint : ℕ → Type 0
IsEndpoint ep = (ep < 16) ⊎ ((128 ≤ ep) × (ep < 144))

outward_ports : below (λ k. not (has k 0x80)) 16 ≡ true
unfolding below
outward_ports = refl

inward_ports :
    below (λ k. has (128 + k) 0x80 && bit_or (bit_and (128 + k) 0xf) 0x10 == 16 + k) 16 ≡ true
unfolding below
inward_ports = refl

port_of-outward : (ep : ℕ) → ep < 16 → port_of ep ≡ ep
unfolding port_of
port_of-outward ep h =
    let plain : has ep 0x80 ≡ false =
      ground (arith, below-holds (λ k. not (has k 0x80)) 16 ep outward_ports h) in
    rw plain refl

port_of-inward : (k : ℕ) → k < 16 → port_of (128 + k) ≡ 16 + k
unfolding port_of
port_of-inward k h =
    let test : (has (128 + k) 0x80 && bit_or (bit_and (128 + k) 0xf) 0x10 == 16 + k) ≡ true =
      below-holds (λ i. has (128 + i) 0x80 && bit_or (bit_and (128 + i) 0xf) 0x10 == 16 + i) 16 k
        inward_ports h in
    let (plain, equal) =
      both_true (has (128 + k) 0x80) (bit_or (bit_and (128 + k) 0xf) 0x10 == 16 + k) test in
    rw plain ((==_iff (bit_or (bit_and (128 + k) 0xf) 0x10) (16 + k)).0 equal)

-- The index of any endpoint in either direction lies in the arrays, and different endpoints have
-- different ones.
pub port_of-injective :
    (a b : ℕ) → IsEndpoint a → IsEndpoint b → port_of a ≡ port_of b → (port_of a < 32) × (a ≡ b)
port_of-injective a b (inl h) (inl k) e = omega (arith, port_of-outward a h, port_of-outward b k)
port_of-injective a b (inl h) (inr (low, high)) e =
    let shift : 128 + (b - 128) ≡ b = omega arith in
    omega (arith, port_of-outward a h, ap port_of shift, port_of-inward (b - 128) (omega arith))
port_of-injective a b (inr (low, high)) (inl k) e =
    let shift : 128 + (a - 128) ≡ a = omega arith in
    omega (arith, port_of-outward b k, ap port_of shift, port_of-inward (a - 128) (omega arith))
port_of-injective a b (inr (low, high)) (inr (low', high')) e =
    let shift : 128 + (a - 128) ≡ a = omega arith in
    let shift' : 128 + (b - 128) ≡ b = omega arith in
    omega (
      arith,
      ap port_of shift,
      port_of-inward (a - 128) (omega arith),
      ap port_of shift',
      port_of-inward (b - 128) (omega arith),
    )
