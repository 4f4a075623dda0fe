-- ===== src/Device/Checked.antt =====
-- The check of definition of a device with a qualifier, and its configurations.
use usbproxy.DeviceQualifier.{
  configurations_defined, is_packet_size, find, error_at, DeviceQualifier,
}
use usbproxy.Base.{
  ℕ, zero, suc, ◌≡◌, refl, sym, ap, ◌∙◌, ◌≢◌, Bool, true, false, ◌||◌, not, some, arith, ltb, ◌==◌,
  if◌then◌else◌,
}
use usbproxy.Result.{fault, Result, ok, bind-ok, ok-injective}
use usbproxy.Descriptors.Errors.{
  obj_string, obj_config, obj_device, ObjType, ErrorKind, DefinitionError, no_error, unless_error,
  err_none, err_invalid_descriptor, err_null_object, err_missing_language, err_misplaced_object,
  err_misplaced_if_num,
}
use usbproxy.DeviceQualifier
use usbproxy.Device.Access.{qualifier_defined, qualifier_named, then_check}
use usbproxy.Device.{
  byte, Device, num_configurations, manufacturer, product, serial_number, get_language_count,
}
use usbproxy.Device.Access.{
  is_string_defined, configurations_named, qualifier_named, named_defined, has_language_string,
  strings_defined, is_defined,
}

-- What `unless_error` does by the kind of the error.
branch {ℓ} : {A : Type ℓ} → ErrorKind → A → A → A
branch err_none next stop = next
branch err_invalid_descriptor next stop = stop
branch err_null_object next stop = stop
branch err_missing_language next stop = stop
branch err_misplaced_object next stop = stop
branch err_misplaced_if_num next stop = stop

split_kind :
    (k : ErrorKind) (rc : DefinitionError) (rest : Result DefinitionError)
    → rc.error ≡ k
    → branch k rest (ok rc) ≡ ok no_error
    → rest ≡ ok no_error
unfolding branch
split_kind err_none rc rest e h = h
split_kind err_invalid_descriptor rc rest e h =
    cc (ap (λ (v : DefinitionError). v.error) (ok-injective rc no_error h))
split_kind err_null_object rc rest e h =
    cc (ap (λ (v : DefinitionError). v.error) (ok-injective rc no_error h))
split_kind err_missing_language rc rest e h =
    cc (ap (λ (v : DefinitionError). v.error) (ok-injective rc no_error h))
split_kind err_misplaced_object rc rest e h =
    cc (ap (λ (v : DefinitionError). v.error) (ok-injective rc no_error h))
split_kind err_misplaced_if_num rc rest e h =
    cc (ap (λ (v : DefinitionError). v.error) (ok-injective rc no_error h))

branch-unless_error :
    (k : ErrorKind) (rc : DefinitionError) (rest : Result DefinitionError)
    → rc.error ≡ k
    → branch k rest (ok rc) ≡ unless_error rc rest (λ e. ok e)
unfolding branch
branch-unless_error err_none rc rest e = rw e refl
branch-unless_error err_invalid_descriptor rc rest e = rw e refl
branch-unless_error err_null_object rc rest e = rw e refl
branch-unless_error err_missing_language rc rest e = rw e refl
branch-unless_error err_misplaced_object rc rest e = rw e refl
branch-unless_error err_misplaced_if_num rc rest e = rw e refl

unless_error-no_error :
    (rc : DefinitionError) (rest : Result DefinitionError)
    → unless_error rc rest (λ e. ok e) ≡ ok no_error
    → rest ≡ ok no_error
unless_error-no_error rc rest h =
    split_kind rc.error rc rest refl (branch-unless_error rc.error rc rest refl ∙ h)

then_check-no_error :
    (check rest : Result DefinitionError) → then_check check rest ≡ ok no_error → rest ≡ ok no_error
then_check-no_error check rest h =
    let (rc, _, h1) = bind-ok check _ no_error h in unless_error-no_error rc rest h1

if-no_error :
    (b : Bool) (kind : ErrorKind) (detail : ℕ) (object : ObjType) (id : ℕ)
    (rest : Result DefinitionError)
    → kind ≢ err_none
    → (if b then ok (error_at kind detail object id) else rest) ≡ ok no_error
    → rest ≡ ok no_error
if-no_error true kind detail object id rest n h = absurd (
    n (
      ap (λ (v : DefinitionError). v.error)
        (ok-injective (error_at kind detail object id) no_error h)))
if-no_error false kind detail object id rest n h = h

-- Configuration 0 does not exist.
qualifier_named-fault :
    (n : ℕ) (q : DeviceQualifier) (d : Device) → qualifier_named (suc n) 0 q d ≡ fault
unfolding qualifier_named DeviceQualifier.get_configuration find
qualifier_named-fault n q d =
    let outside : (ltb (DeviceQualifier.num_configurations q) 0 || ltb 0 1) ≡ true = ground arith in
    rw outside refl

is_defined-empty :
    (q : DeviceQualifier)
    → DeviceQualifier.num_configurations q ≡ 0
    → (DeviceQualifier.is_defined q).error ≡ err_invalid_descriptor
unfolding DeviceQualifier.is_defined
is_defined-empty q h = ground (arith, h)

qualifier-no_error :
    (q : DeviceQualifier) (d : Device) (n : ℕ)
    → DeviceQualifier.num_configurations q ≡ n
    → then_check (ok (DeviceQualifier.is_defined q)) (qualifier_named n 0 q d) ≢ ok no_error
unfolding branch
qualifier-no_error q d zero e h =
    let rc = DeviceQualifier.is_defined q in
    let bad = is_defined-empty q e in
    let stopped : ok rc ≡ ok no_error =
      branch-unless_error err_invalid_descriptor rc (qualifier_named zero 0 q d) bad ∙ h in
    let fine : rc.error ≡ err_none =
      ap (λ (v : DefinitionError). v.error) (ok-injective rc no_error stopped) in
    cc
qualifier-no_error q d (suc n) e h =
    let faulted =
      then_check-no_error (ok (DeviceQualifier.is_defined q)) (qualifier_named (suc n) 0 q d) h in
    let f = qualifier_named-fault n q d in cc

-- A device that has a qualifier is never found to be defined: the check ends with an error, or it
-- faults.
pub is_defined-ne-no_error :
    (d : Device) (q : DeviceQualifier) → d.qualifier ≡ some q → is_defined d ≢ ok no_error
unfolding is_defined strings_defined named_defined has_language_string qualifier_defined
is_defined-ne-no_error d q attached h =
    let h1 =
      if-no_error (not (byte d.descriptor 0 == 18)) err_invalid_descriptor 1 obj_device 0 _
        (λ e. cc) h in
    let h2 =
      if-no_error (not (byte d.descriptor 1 == 1)) err_invalid_descriptor 2 obj_device 0 _ (λ e. cc)
        h1 in
    let h3 =
      if-no_error (not (is_packet_size (byte d.descriptor 7))) err_invalid_descriptor 8 obj_device 0
        _ (λ e. cc) h2 in
    let h4 =
      if-no_error (num_configurations d == 0) err_invalid_descriptor 18 obj_device 0 _ (λ e. cc)
        h3 in
    let h5 =
      unless_error-no_error (configurations_defined obj_config false 0 d.configurations)
        (strings_defined d) h4 in
    let (there, _, h6) = bind-ok (has_language_string d) _ no_error h5 in
    let h7 = if-no_error (not there) err_null_object 0 obj_string 0 _ (λ e. cc) h6 in
    let (count, _, h8) = bind-ok (get_language_count d) _ no_error h7 in
    let h9 : named_defined d ≡ ok no_error =
      if-no_error (count == 0) err_missing_language 0 obj_string 0 (named_defined d) (λ e. cc) h8 in
    let a1 = then_check-no_error (is_string_defined d (manufacturer d)) _ h9 in
    let a2 = then_check-no_error (is_string_defined d (product d)) _ a1 in
    let a3 = then_check-no_error (is_string_defined d (serial_number d)) _ a2 in
    let a4 =
      then_check-no_error (configurations_named d.configurations d)
        (qualifier_defined d.qualifier d) a3 in
    let a5 : qualifier_defined (some q) d ≡ ok no_error =
      ap (λ o. qualifier_defined o d) (sym attached) ∙ a4 in
    qualifier-no_error q d (DeviceQualifier.num_configurations q) refl a5
