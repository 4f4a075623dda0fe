-- ===== src/GadgetFs/Generated.antt =====
-- Plugins/Hosts/HostProxy_GadgetFS.cpp: the size and the parts of what generate_descriptor makes.
use usbproxy.Base.{ℕ, zero, suc, ◌+◌, ◌≡◌, Bool, Option, some, ◌++◌, length, Bytes}
use usbproxy.Result.{Result, ok}
use usbproxy.Descriptors.Configuration.{Configuration}
use usbproxy.Descriptors.Configuration.Access.{get_full_descriptor_length}
use usbproxy.Device.{Device}
use usbproxy.GadgetFs.Descriptor.{configuration_at}

-- The sizes of the configurations that a loop appends.
abbrev size_of : Result (Option Configuration) → ℕ
size_of (ok (some c)) = get_full_descriptor_length c
size_of _ = 0

abbrev pub total_size : Bool → Device → ℕ → ℕ → ℕ
total_size other d zero i = 0
total_size other d (suc n) i =
    size_of (configuration_at other d.qualifier d i) + total_size other d n (suc i)

-- What a step has put behind the buffer.
record Appended (out : Bytes) (size : ℕ) (r : Bytes) : Type 0 where
  added : Bytes
  joined : r ≡ out ++ added
  sized : length added ≡ size

abbrev AreSized : (Configuration → Result Bytes) → Type 0
AreSized bytes_of =
    (c : Configuration) (r : Bytes) → bytes_of c ≡ ok r → length r ≡ get_full_descriptor_length c
