-- ===== src/Device/Active.antt =====
-- The active configuration of a device.
use usbproxy.Base.{
  ℕ, ◌-◌, ◌≤◌, ◌<◌, ◌≡◌, refl, ◌⊎◌, inl, inr, true, false, ◌||◌, none, some, arith, ltb, ◌==◌,
  length, set, get_elem?-set_self, u8,
}
use usbproxy.Result.{ok}
use usbproxy.Descriptors.Endpoint.{byte}
use usbproxy.Descriptors.Configuration.{Configuration}
use usbproxy.DeviceQualifier.{place, find}
use usbproxy.Device.{Device, num_configurations}
use usbproxy.Device.Access.{
  add_configuration, get_configuration, get_active_configuration, set_active_configuration,
}

-- A configuration with a value from 1 to the number of configurations can be added, whatever was
-- there, and is the active one after its value has been set.
pub get_active_configuration-add_configuration :
    (d : Device) (c : Configuration)
    → length d.configurations ≡ num_configurations d
    → num_configurations d < 256
    → 1 ≤ byte c.descriptor 5
    → byte c.descriptor 5 ≤ num_configurations d
    → (d' : Device) × (add_configuration d c ≡ ok d')
      × (get_active_configuration (set_active_configuration d' (byte c.descriptor 5)) ≡ ok (some c))
unfolding add_configuration get_configuration get_active_configuration set_active_configuration
    place find
get_active_configuration-add_configuration d c sized narrow low high =
    let v = byte c.descriptor 5 in
    let n = num_configurations d in
    let fits : ltb n v ≡ false = ground arith in
    let positive : (v == 0) ≡ false = ground arith in
    let room : ltb (v - 1) (length d.configurations) ≡ true = ground arith in
    let valid : (ltb n v || ltb v 1) ≡ false = ground arith in
    let small : u8 v ≡ v = omega arith in
    (
      record d { configurations = set d.configurations (v - 1) (some c) },
      rw (fits, positive, room) refl,
      rw valid (
          rw small (
            rw valid
              (rw (get_elem?-set_self d.configurations (v - 1) (some c) (omega arith)) refl))),
    )

-- A value of 0, or above the number of configurations, leaves none active.
get_active_configuration-none :
    (d : Device) (value : ℕ)
    → (value ≡ 0) ⊎ (num_configurations d < value)
    → get_active_configuration (set_active_configuration d value) ≡ ok none
unfolding get_configuration get_active_configuration set_active_configuration find
get_active_configuration-none d value out =
    let n = num_configurations d in
    let invalid : (ltb n value || ltb value 1) ≡ true = elim out [
      | inl z ↦ ground (arith, z)
      | inr past ↦ ground (arith, past)
    ] in
    rw invalid refl
