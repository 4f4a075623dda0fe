-- ===== src/Descriptors/Configuration.antt =====
-- lib/Configuration.cpp: a configuration, read from a device or built from its fields.
pub mod Access
pub mod Load
use usbproxy.Base.{
  fun_ext, ℕ, zero, suc, ◌+◌, ◌-◌, ◌*◌, ◌/◌, ◌%◌, ◌^◌, ◌≤◌, ◌<◌, min, max, ◌≡◌, refl, sym, ap, ap₂,
  subst, ◌∙◌, ◌≢◌, ◌↔◌, ◌⊎◌, inl, inr, Bool, true, false, ◌&&◌, ◌||◌, not, Option, none, some, List,
  [], ◌∷◌, ◌++◌, map, append-nil, append_assoc, arith, ltb, leb, ◌==◌, if◌then◌else◌, ltb→lt,
  lt→ltb, leb→le, le→leb, lt→leb, ==_iff, ==_refl, ==_ne, if-cases, below, below-holds, Bool-cases,
  Option-cases, length, get_elem?, get_or, set, take, drop, replicate, length-append, length-set,
  get_elem?-set_self, get_elem?-set_ne, get_elem?-none, get_elem?-some, get_elem?-append_left,
  get_elem?-append_right, get_elem?-inside, get_elem?-replicate, get_elem?-take, take-append_length,
  drop-append_length, take-append_left, take_all, length-take, length-drop, length-replicate, All,
  All-append, All-get_elem?, All-set, All-replicate, get_elem?-at, set-at, Bytes, u8, u16, has,
}
use usbproxy.Packet.{CtrlRequest}
use usbproxy.Result.{
  Result, ok, fault, exits, spins, ◌>>=◌, at_index, put_index, read_bytes, overlay,
}
use usbproxy.Descriptors.Endpoint.{byte}
use usbproxy.Descriptors.Interface
use usbproxy.Descriptors.Interface.{Interface, interface_number}
use usbproxy.Descriptors.Group
use usbproxy.Descriptors.Group.{Group}

-- The replies of the device behind the proxy: `none` for a negative return code, otherwise the bytes
-- that `control_request` stores.
abbrev pub Device : Type 0
Device = CtrlRequest → Option Bytes

abbrev pub get_descriptor : ℕ → ℕ → ℕ → CtrlRequest
get_descriptor kind index length = record {
  request_type = 0x80;
  request = 6;
  value = kind * 256 + index;
  index = 0;
  length = length;
}

abbrev pub get_interface_request : ℕ → CtrlRequest
get_interface_request number = record {
  request_type = 0x81;
  request = 10;
  value = 0;
  index = number;
  length = 1;
}

-- `usb_config_descriptor`, nine bytes; `interface_groups` is an array of `bNumInterfaces` pointers.
-- The pointer to the device is left out.
pub record Configuration : Type 0 where
  pub descriptor : Bytes
  pub interface_groups : List (Option Group)

-- The constructor from a descriptor.
unfoldable pub from_descriptor : Bytes → Configuration
from_descriptor d = record { descriptor = d; interface_groups = replicate (byte d 4) none }

-- A request whose reply goes to the start of a buffer; a failure ends the program.
unfoldable pub ask : Device → CtrlRequest → Bytes → Result (Bytes × ℕ)
ask device r buf = elim (device r) [
  | none ↦ exits
  | some reply ↦ (do buf' ← overlay buf reply; ok (buf', length reply))
]

unfoldable pub add_interface : Configuration → Interface → Result Configuration
add_interface c i = do
  slot ← at_index c.interface_groups (interface_number i)
  g ← Group.add_interface (elim slot [ none ↦ Group.init (interface_number i) | some g ↦ g ]) i
  groups ← put_index c.interface_groups (interface_number i) (some g)
  ok (record c { interface_groups = groups })

-- `while (p<e) add_interface(new Interface(this,&p,e));`
unfoldable pub add_interfaces : ℕ → Bytes → Configuration → Bytes → Result Configuration
unfolding add_interface
add_interfaces fuel junk c [] = ok c
add_interfaces zero junk c (b ∷ p) = spins
add_interfaces (suc fuel) junk c (b ∷ p) = do
  s ← Interface.from_buffer junk (b ∷ p)
  c' ← add_interface c s.0
  add_interfaces fuel junk c' s.1

-- The last loop of the constructor, over the groups from `index` on.
unfoldable pub activate : Device → ℕ → List (Option Group) → Result (List (Option Group))
unfolding ask
activate device index [] = ok []
activate device index (none ∷ groups) = fault
activate device index (some g ∷ groups) =
    let rest = activate device (suc index) groups in
    (do
      active ←
          if g.alternate_count == 1
          then ok 0
          else (do s ← ask device (get_interface_request index) (0 ∷ []); ok (byte s.0 0))
      after ← rest
      ok (some (record g { active_alternate_index = some active }) ∷ after))

-- `realloc`. Bytes that no reply has stored are indeterminate in the source; here they are 0.
abbrev pub resize : ℕ → Bytes → Bytes
resize n buf = take n (buf ++ replicate (n - length buf) 0)

abbrev pub config_kind : Bool → ℕ
config_kind other_speed = if other_speed then 7 else 2

-- The constructor from a device.
unfoldable pub from_device : Device → Bytes → ℕ → Bool → Result Configuration
unfolding ask from_descriptor add_interfaces activate
from_device device junk idx other_speed = do
  head ← ask device (get_descriptor (config_kind other_speed) idx 9) (replicate 9 0)
  let len = byte head.0 3 * 256 + byte head.0 2
  full ← ask device (get_descriptor (config_kind other_speed) idx len) (resize len head.0)
  d ← read_bytes 9 full.0
  let p = drop 9 (take full.1 full.0)
  c ← add_interfaces (length p) junk (from_descriptor d) p
  groups ← activate device 0 c.interface_groups
  ok (record c { interface_groups = groups })
