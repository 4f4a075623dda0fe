-- ===== src/Descriptors/Configuration/Load.antt =====
-- A configuration as the constructor reads it from a device.
use usbproxy.Base.{
  fun_ext, ℕ, zero, suc, ◌+◌, ◌*◌, ◌≤◌, ◌<◌, ◌≡◌, refl, ap, ◌∙◌, some, List, [], ◌∷◌, ◌++◌, arith,
  length, length-append, Bytes,
}
use usbproxy.Result.{Result, ok, ◌>>=◌}
use usbproxy.Descriptors.Endpoint.{byte}
use usbproxy.Descriptors.Interface
use usbproxy.Descriptors.Interface.{Interface}
use usbproxy.Descriptors.Interface.Loops.{StartsInterface}
use usbproxy.Descriptors.Interface.RoundTrip.{hid_bytes, flat, endpoint_bytes}
use usbproxy.Descriptors.Interface.Parse.{Parts, IsWhole, wire, assemble}
use usbproxy.Descriptors.Interface.Whole.{from_buffer-wire}
use usbproxy.Descriptors.Configuration.{
  get_descriptor, Device, Configuration, add_interface, add_interfaces,
}

abbrev pub wires : List Parts → Bytes
wires [] = []
wires (p ∷ ps) = wire p ++ wires ps

abbrev pub AllWhole : Bytes → List Parts → Type 0
AllWhole junk [] = Unit {0}
AllWhole junk (p ∷ ps) = IsWhole junk p × (length p.generics ≤ 255) × AllWhole junk ps

-- The interfaces added to the configuration one after the other.
abbrev pub add_all : Configuration → List Parts → Result Configuration
add_all c [] = ok c
add_all c (p ∷ ps) = add_interface c (assemble [] p) >>= λ c'. add_all c' ps

wire-StartsInterface :
    (junk : Bytes) (p : Parts) (rest : Bytes) → IsWhole junk p → StartsInterface (wire p ++ rest)
wire-StartsInterface junk p rest w = go p.header w.size w.kind
  where
    tail : Bytes
    tail = hid_bytes p.hid ++ (flat p.generics ++ endpoint_bytes p.endpoints)

    go : (h : Bytes) → length h ≡ 9 → byte h 1 ≡ 4 → StartsInterface ((h ++ tail) ++ rest)
    go [] s k = absurd (omega arith)
    go (n ∷ []) s k = absurd (omega arith)
    go (n ∷ t ∷ hs) s k = k

wires-StartsInterface :
    (junk : Bytes) (ps : List Parts) → AllWhole junk ps → StartsInterface (wires ps)
wires-StartsInterface junk [] w = tt
wires-StartsInterface junk (p ∷ ps) w = wire-StartsInterface junk p (wires ps) w.0

add_interfaces_step :
    (fuel : ℕ) (junk : Bytes) (c : Configuration) (p rest : Bytes) (i : Interface)
    → 0 < length p
    → Interface.from_buffer junk p ≡ ok (i, rest)
    → add_interfaces (suc fuel) junk c p
      ≡ (add_interface c i >>= λ c'. add_interfaces fuel junk c' rest)
unfolding add_interfaces
add_interfaces_step fuel junk c [] rest i h e = absurd (omega arith)
add_interfaces_step fuel junk c (b ∷ p) rest i h e = rw e

length-wire_pos : (junk : Bytes) (p : Parts) → IsWhole junk p → 9 ≤ length (wire p)
length-wire_pos junk p w = omega (arith, w.size, length-append p.header _)

pub add_interfaces-wires :
    (fuel : ℕ) (junk : Bytes) (c : Configuration) (ps : List Parts)
    → length (wires ps) ≤ fuel
    → length junk ≡ 9
    → AllWhole junk ps
    → add_interfaces fuel junk c (wires ps) ≡ add_all c ps
add_interfaces-wires fuel junk c [] h j w = unfold add_interfaces in refl
add_interfaces-wires zero junk c (p ∷ ps) h j w =
    absurd (omega (arith, length-append (wire p) (wires ps), length-wire_pos junk p w.0))
add_interfaces-wires (suc fuel) junk c (p ∷ ps) h j w =
    add_interfaces_step fuel junk c (wire p ++ wires ps) (wires ps) (assemble [] p)
      (omega (arith, length-append (wire p) (wires ps), length-wire_pos junk p w.0))
      (from_buffer-wire junk [] p (wires ps) j tt w.0 (omega (arith, w.1))
        (wires-StartsInterface junk ps w.2))
    ∙ ap (λ (k : Configuration → Result Configuration). add_interface c (assemble [] p) >>= k)
        (fun_ext λ c'.
          add_interfaces-wires fuel junk c' ps
            (omega (arith, length-append (wire p) (wires ps), length-wire_pos junk p w.0)) j w.2)

-- The device answers the two requests of the constructor with a configuration descriptor and the
-- descriptors of whole interfaces.
pub record Answers (device : Device) (kind idx : ℕ) (header : Bytes) (ps : List Parts)
    : Type 0 where
  pub size : length header ≡ 9
  pub total : byte header 3 * 256 + byte header 2 ≡ 9 + length (wires ps)
  pub short : device (get_descriptor kind idx 9) ≡ some header
  pub long : device (get_descriptor kind idx (9 + length (wires ps))) ≡ some (header ++ wires ps)
