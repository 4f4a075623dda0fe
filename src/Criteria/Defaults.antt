-- ===== src/Criteria/Defaults.antt =====
-- What the criteria let pass.
use usbproxy.Base.{
  ℕ, ◌≤◌, ◌<◌, ◌≡◌, refl, sym, ◌∙◌, ◌↔◌, inl, inr, true, arith, ◌==◌, ==_iff, Bool-cases, Bytes,
}
use Prim.Native.Nat.{bit_and, bit_and-bitwise}
use usbproxy.Descriptors.Endpoint.{Endpoint, byte, word}
use usbproxy.Descriptors.Interface.{Interface}
use usbproxy.Descriptors.Configuration.{Configuration}
use usbproxy.Criteria.{
  is_between, test_endpoint, any_endpoint, test_interface, any_interface, test_configuration,
  any_configuration, test_device, any_device,
}

bit_and-zero : (d : ℕ) → bit_and 0 d ≡ 0
bit_and-zero d = bit_and-bitwise 0 d

is_between-within : (low high v : ℕ) → low ≤ v → v ≤ high → is_between low high v ≡ true
is_between-within low high v h k = ground arith

-- The criteria as they are made let every endpoint, interface, configuration and device pass, where
-- a byte is below 256 and a word below 65536.
pub test-defaults :
    (e : Endpoint) (i : Interface) (c : Configuration) (d : Bytes)
    → word e.descriptor 4 < 65536
    → byte e.descriptor 6 < 256
    → byte d 7 < 256
    → (test_endpoint any_endpoint e ≡ true)
      × (test_interface any_interface i ≡ true)
      × (test_configuration any_configuration c ≡ true)
      × (test_device any_device d ≡ true)
unfolding test_endpoint any_endpoint test_interface any_interface test_configuration
    any_configuration test_device any_device
test-defaults e i c d h k l = (
  rw (
    bit_and-zero (byte e.descriptor 2),
    bit_and-zero (byte e.descriptor 3),
    is_between-within 0 65535 (word e.descriptor 4) (omega arith) (omega arith),
    is_between-within 0 255 (byte e.descriptor 6) (omega arith) (omega arith),
  ),
  refl,
  rw (bit_and-zero (byte c.descriptor 7)),
  rw (is_between-within 0 255 (byte d 7) (omega arith) (omega arith)),
)

-- A filter with the address mask 255 and the other criteria as they are by default is for exactly
-- the endpoints whose address has the same lowest eight bits, if the packet size and the interval of
-- the endpoint fit in 16 and 8 bits.
pub test_endpoint-address_iff :
    (e : Endpoint) (address : ℕ)
    → word e.descriptor 4 < 65536
    → byte e.descriptor 6 < 256
    → (test_endpoint (record any_endpoint { address = address; address_mask = 255 }) e ≡ true)
      ↔ (bit_and 255 address ≡ bit_and 255 (byte e.descriptor 2))
unfolding test_endpoint any_endpoint
test_endpoint-address_iff e address h k =
    let result : test_endpoint (record any_endpoint { address = address; address_mask = 255 }) e
        ≡ (bit_and 255 address == bit_and 255 (byte e.descriptor 2)) =
      elim (Bool-cases (bit_and 255 address == bit_and 255 (byte e.descriptor 2))) [
        | inl same ↦ rw (
          same,
          bit_and-zero (byte e.descriptor 3),
          is_between-within 0 65535 (word e.descriptor 4) (omega arith) (omega arith),
          is_between-within 0 255 (byte e.descriptor 6) (omega arith) (omega arith),
        )
        | inr other ↦ rw other
      ] in
    let both = ==_iff (bit_and 255 address) (bit_and 255 (byte e.descriptor 2)) in
    (λ t. both.0 (sym result ∙ t), λ t. result ∙ both.1 t)
