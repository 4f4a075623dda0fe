-- ===== src/Manager/Relaying/Configured.antt =====
-- What `setConfig` tells the proxies.
use usbproxy.Base.{
  ℕ, ◌≤◌, ◌<◌, ◌≡◌, refl, ap, ◌∙◌, Bool, true, false, ◌||◌, not, Option, none, some, List, [], ◌∷◌,
  arith, ltb, ◌==◌, if◌then◌else◌, u8,
}
use usbproxy.Result.{ok}
use usbproxy.Descriptors.Configuration.{Configuration}
use usbproxy.DeviceQualifier
use usbproxy.DeviceQualifier.{DeviceQualifier, find}
use usbproxy.Device.{Device, num_configurations}
use usbproxy.Device.Access.{get_configuration, get_active_configuration, set_active_configuration}
use usbproxy.Manager.Relaying.{
  Manager, Outcome, Call, device_speeds, host_speeds, log, speeds, apply_config, set_config, ending,
}

-- The configuration at the other speed: a null pointer where the device has no qualifier.
abbrev pub IsOther : Option DeviceQualifier → ℕ → Option Configuration → Type 0
IsOther none index other = other ≡ none
IsOther (some q) index other = DeviceQualifier.get_configuration q index ≡ ok other

-- What both proxies are told, where a device without a qualifier has its configuration in front.
abbrev pub told :
    Option DeviceQualifier → Bool → Option Configuration → Option Configuration → List Call
told none high own other = device_speeds own none high ∷ host_speeds own none high ∷ []
told (some q) true own other = device_speeds other own true ∷ host_speeds other own true ∷ []
told (some q) false own other = device_speeds own other false ∷ host_speeds own other false ∷ []

speeds-told :
    (d : Device) (q : Option DeviceQualifier) (index : ℕ) (own other : Option Configuration)
    → get_configuration d index ≡ ok own
    → IsOther q index other
    → speeds d q index ≡ ok (told q d.highspeed own other)
unfolding speeds
speeds-told d none index own other e f = rw e refl
speeds-told d (some q) index own other e f = rw (e, f) (high d.highspeed)
  where
    high :
        (b : Bool)
        → ok (
            if b
            then device_speeds other own true ∷ host_speeds other own true ∷ []
            else device_speeds own other false ∷ host_speeds own other false ∷ [])
          ≡ ok (told (some q) b own other)
    high true = refl
    high false = refl

-- A manager without a configuration that is given the value of one of the device's makes it the
-- active one, tells both proxies its configurations at full and at high speed in this order, where
-- the device has a qualifier, and then starts the data endpoints.
pub set_config-told :
    (start : Manager → Outcome) (index : ℕ) (m : Manager) (d : Device) (c : Configuration)
    (other : Option Configuration)
    → m.configuration_number ≡ 0
    → m.device ≡ some d
    → 1 ≤ index
    → index ≤ num_configurations d
    → index < 256
    → get_configuration d index ≡ ok (some c)
    → IsOther d.qualifier index other
    → (d' : Device) × (get_active_configuration d' ≡ ok (some c))
      × (set_config start index m
          ≡ start (
              log
                (record m { configuration_number = index; device = some d' })
                (told d.qualifier d.highspeed (some c) other)))
unfolding set_config apply_config get_active_configuration set_active_configuration
    get_configuration
set_config-told start index m d c other fresh there low high narrow own at_other =
    let d' = set_active_configuration d index in
    let fits : (ltb (num_configurations d) index || ltb index 1) ≡ false = ground arith in
    let small : u8 index ≡ index = omega arith in
    let differs : (m.configuration_number == index) ≡ false = ground arith in
    let first : not (m.configuration_number == 0) ≡ false = ground (arith, fresh) in
    let active : get_active_configuration d' ≡ ok (some c) = rw fits (rw small own) in
    let applied =
      ap (λ o. apply_config start index o (record m { configuration_number = index })) there in
    let told_both =
      ap
        (λ r. ending r (λ calls.
          start (log (record m { configuration_number = index; device = some d' }) calls)))
        (speeds-told d' d.qualifier index (some c) other own at_other) in
    (d', active, rw (differs, first) (applied ∙ told_both))
