-- ===== src/Criteria.antt =====
-- lib/Criteria.cpp: which devices, configurations, interfaces and endpoints a filter or an injector
-- is for. A criterion that may be -1, for any value, is an option.
pub mod Defaults
use usbproxy.Base.{
  fun_ext, ℕ, zero, suc, ◌+◌, ◌-◌, ◌*◌, ◌/◌, ◌%◌, ◌^◌, ◌≤◌, ◌<◌, min, max, ◌≡◌, refl, sym, ap, ap₂,
  subst, ◌∙◌, ◌≢◌, ◌↔◌, ◌⊎◌, inl, inr, Bool, true, false, ◌&&◌, ◌||◌, not, Option, none, some, List,
  [], ◌∷◌, ◌++◌, map, append-nil, append_assoc, arith, ltb, leb, ◌==◌, if◌then◌else◌, ltb→lt,
  lt→ltb, leb→le, le→leb, lt→leb, ==_iff, ==_refl, ==_ne, if-cases, below, below-holds, Bool-cases,
  Option-cases, length, get_elem?, get_or, set, take, drop, replicate, length-append, length-set,
  get_elem?-set_self, get_elem?-set_ne, get_elem?-none, get_elem?-some, get_elem?-append_left,
  get_elem?-append_right, get_elem?-inside, get_elem?-replicate, get_elem?-take, take-append_length,
  drop-append_length, take-append_left, take_all, length-take, length-drop, length-replicate, All,
  All-append, All-get_elem?, All-set, All-replicate, get_elem?-at, set-at, Bytes, u8, u16, has,
}
use Prim.Native.Nat.{bit_and}
use usbproxy.Descriptors.Endpoint.{Endpoint, byte, word}
use usbproxy.Descriptors.Interface.{Interface}
use usbproxy.Descriptors.Configuration.{Configuration}

-- `number!=-1 && number!=value` is false.
abbrev pub agrees : Option ℕ → ℕ → Bool
agrees none value = true
agrees (some wanted) value = wanted == value

-- `(mask&wanted)!=(mask&value)` is false.
abbrev pub agrees_masked : ℕ → ℕ → ℕ → Bool
agrees_masked mask wanted value = bit_and mask wanted == bit_and mask value

-- `low>value || high<value` is false.
abbrev pub is_between : ℕ → ℕ → ℕ → Bool
is_between low high value = not (ltb value low || ltb high value)

pub record CriteriaEndpoint : Type 0 where
  pub address : ℕ
  pub address_mask : ℕ
  pub attributes : ℕ
  pub attributes_mask : ℕ
  pub packet_size_min : ℕ
  pub packet_size_max : ℕ
  pub interval_min : ℕ
  pub interval_max : ℕ

unfoldable pub any_endpoint : CriteriaEndpoint
any_endpoint = record {
  address = 0;
  address_mask = 0;
  attributes = 0;
  attributes_mask = 0;
  packet_size_min = 0;
  packet_size_max = 65535;
  interval_min = 0;
  interval_max = 255;
}

unfoldable pub test_endpoint : CriteriaEndpoint → Endpoint → Bool
test_endpoint c e =
    if not (agrees_masked c.address_mask c.address (byte e.descriptor 2))
    then false
    else if not (agrees_masked c.attributes_mask c.attributes (byte e.descriptor 3))
    then false
    else if not (is_between c.packet_size_min c.packet_size_max (word e.descriptor 4))
    then false
    else is_between c.interval_min c.interval_max (byte e.descriptor 6)

pub record CriteriaInterface : Type 0 where
  pub number : Option ℕ
  pub alternate : Option ℕ
  pub device_class : Option ℕ
  pub sub_class : Option ℕ
  pub protocol : Option ℕ

unfoldable pub any_interface : CriteriaInterface
any_interface = record {
  number = none;
  alternate = none;
  device_class = none;
  sub_class = none;
  protocol = none;
}

unfoldable pub test_interface : CriteriaInterface → Interface → Bool
test_interface c i =
    agrees c.number (byte i.descriptor 2)
    && (agrees c.alternate (byte i.descriptor 3)
        && (agrees c.device_class (byte i.descriptor 5)
            && (agrees c.sub_class (byte i.descriptor 6)
                && agrees c.protocol (byte i.descriptor 7))))

pub record CriteriaConfiguration : Type 0 where
  pub number : Option ℕ
  pub attributes : ℕ
  pub attributes_mask : ℕ

unfoldable pub any_configuration : CriteriaConfiguration
any_configuration = record { number = none; attributes = 0; attributes_mask = 0 }

unfoldable pub test_configuration : CriteriaConfiguration → Configuration → Bool
test_configuration c k =
    agrees c.number (byte k.descriptor 5)
    && agrees_masked c.attributes_mask c.attributes (byte k.descriptor 7)

pub record CriteriaDevice : Type 0 where
  pub device_class : Option ℕ
  pub sub_class : Option ℕ
  pub protocol : Option ℕ
  pub packet_size_min : ℕ
  pub packet_size_max : ℕ
  pub vendor : Option ℕ
  pub product : Option ℕ
  pub release : Option ℕ

unfoldable pub any_device : CriteriaDevice
any_device = record {
  device_class = none;
  sub_class = none;
  protocol = none;
  packet_size_min = 0;
  packet_size_max = 255;
  vendor = none;
  product = none;
  release = none;
}

-- The device descriptor, in 18 bytes.
unfoldable pub test_device : CriteriaDevice → Bytes → Bool
test_device c d =
    agrees c.device_class (byte d 4)
    && (agrees c.sub_class (byte d 5)
        && (agrees c.protocol (byte d 6)
            && (is_between c.packet_size_min c.packet_size_max (byte d 7)
                && (agrees c.vendor (word d 8)
                    && (agrees c.product (word d 10) && agrees c.release (word d 12))))))
