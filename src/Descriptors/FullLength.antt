-- ===== src/Descriptors/FullLength.antt =====
-- The buffers that full descriptors are written to.
use usbproxy.Base.{
  ℕ, ◌+◌, ◌≡◌, sym, ap, ◌∙◌, inl, inr, Option, none, some, List, [], ◌∷◌, ◌++◌, arith, leb, leb→le,
  Bool-cases, length, take, length-append, length-take, Bytes,
}
use usbproxy.Result.{Result, ok, fault, ◌>>=◌, read_bytes, bind-ok}
use usbproxy.Descriptors.Endpoint
use usbproxy.Descriptors.Endpoint.{Endpoint, Hid, byte, hid_length, hid_full_descriptor}
use usbproxy.Descriptors.Interface
use usbproxy.Descriptors.Interface.{
  Interface, full_length_endpoints, full_length_generics, full_length_hid, full_endpoints,
  full_generics, full_hid,
}
use usbproxy.Descriptors.Group
use usbproxy.Descriptors.Group.{Group, full_slots, full_length_slots}
use usbproxy.Descriptors.Configuration.{Configuration}
use usbproxy.Descriptors.Configuration.Access
use usbproxy.Descriptors.Configuration.Access.{full_groups, full_length_groups}

ok-same : {A : Type 0} (a b : A) → ok a ≡ ok b → a ≡ b
ok-same a b e = cc

-- If it succeeds, it writes this many bytes.
abbrev Writes : Result Bytes → ℕ → Type 0
Writes r n = (w : Bytes) → r ≡ ok w → length w ≡ n

read_bytes-Writes : (n : ℕ) (bs : Bytes) → Writes (read_bytes n bs) n
read_bytes-Writes n bs w e = elim (Bool-cases (leb n (length bs))) [
  | inl fits ↦
      let same : take n bs ≡ w = ok-same (take n bs) w (rw fits at e) in
      ap length (sym same) ∙ omega (arith, length-take n bs, leb→le n (length bs) fits)
  | inr long ↦ let never : fault ≡ ok w = rw long at e in cc
]

nothing-Writes : Writes (ok []) 0
nothing-Writes w e = ap length (sym (ok-same [] w e))

chain-Writes :
    (r s : Result Bytes) (n m : ℕ)
    → Writes r n
    → Writes s m
    → Writes (r >>= λ a. s >>= λ b. ok (a ++ b)) (n + m)
chain-Writes r s n m h k w e =
    let (a, ra, e') = bind-ok r _ w e in
    let (b, sb, e'') = bind-ok s _ w e' in
    ap length (sym (ok-same (a ++ b) w e'')) ∙ omega (arith, length-append a b, h a ra, k b sb)

endpoints-Writes :
    (eps : List (Option Endpoint)) → Writes (full_endpoints eps) (full_length_endpoints eps)
unfolding full_endpoints full_length_endpoints Endpoint.get_full_descriptor
    Endpoint.get_full_descriptor_length
endpoints-Writes [] = nothing-Writes
endpoints-Writes (none ∷ eps) = endpoints-Writes eps
endpoints-Writes (some e ∷ eps) =
    chain-Writes _ _ _ _ (read_bytes-Writes (byte e.descriptor 0) e.descriptor)
      (endpoints-Writes eps)

generics-Writes : (ds : List Bytes) → Writes (full_generics ds) (full_length_generics ds)
unfolding full_generics full_length_generics
generics-Writes [] = nothing-Writes
generics-Writes (d ∷ ds) =
    chain-Writes _ _ _ _ (read_bytes-Writes (byte d 0) d) (generics-Writes ds)

hid-Writes : (h : Option Hid) → Writes (full_hid h) (full_length_hid h)
unfolding full_hid full_length_hid hid_length hid_full_descriptor
hid-Writes none = nothing-Writes
hid-Writes (some h) = read_bytes-Writes (byte h.descriptor 0) h.descriptor

interface-Writes :
    (i : Interface)
    → Writes (Interface.get_full_descriptor i) (Interface.get_full_descriptor_length i)
unfolding Interface.get_full_descriptor Interface.get_full_descriptor_length
interface-Writes i w e =
    let (d, ed, e1) = bind-ok (read_bytes (byte i.descriptor 0) i.descriptor) _ w e in
    let (h, eh, e2) = bind-ok (full_hid i.hid_descriptor) _ w e1 in
    let (gs, eg, e3) = bind-ok (full_generics i.generic_descriptors) _ w e2 in
    let (es, ee, e4) = bind-ok (full_endpoints i.endpoints) _ w e3 in
    ap length (sym (ok-same (d ++ (h ++ (gs ++ es))) w e4))
    ∙ omega (
      arith,
      length-append d (h ++ (gs ++ es)),
      length-append h (gs ++ es),
      length-append gs es,
      read_bytes-Writes (byte i.descriptor 0) i.descriptor d ed,
      hid-Writes i.hid_descriptor h eh,
      generics-Writes i.generic_descriptors gs eg,
      endpoints-Writes i.endpoints es ee,
    )

slots-Writes : (is : List (Option Interface)) → Writes (full_slots is) (full_length_slots is)
unfolding full_slots full_length_slots
slots-Writes [] = nothing-Writes
slots-Writes (none ∷ is) = slots-Writes is
slots-Writes (some i ∷ is) = chain-Writes _ _ _ _ (interface-Writes i) (slots-Writes is)

group-Writes :
    (g : Group) → Writes (Group.get_full_descriptor g) (Group.get_full_descriptor_length g)
unfolding Group.get_full_descriptor Group.get_full_descriptor_length
group-Writes g = slots-Writes (take g.alternate_count g.interfaces)

groups-Writes : (gs : List (Option Group)) → Writes (full_groups gs) (full_length_groups gs)
unfolding full_groups full_length_groups
groups-Writes [] = nothing-Writes
groups-Writes (none ∷ gs) = groups-Writes gs
groups-Writes (some g ∷ gs) = chain-Writes _ _ _ _ (group-Writes g) (groups-Writes gs)

-- Whatever a configuration holds, its full descriptor fills the buffer that is allocated for it
-- exactly, if it is written out at all.
pub length-get_full_descriptor :
    (c : Configuration) (w : Bytes)
    → Access.get_full_descriptor c ≡ ok w
    → length w ≡ Access.get_full_descriptor_length c
unfolding Access.get_full_descriptor Access.get_full_descriptor_length
length-get_full_descriptor c =
    chain-Writes _ _ _ _ (read_bytes-Writes (byte c.descriptor 0) c.descriptor)
      (groups-Writes c.interface_groups)
