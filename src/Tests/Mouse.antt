-- ===== src/Tests/Mouse.antt =====
-- The descriptors of a mouse, for the tests.
use usbproxy.Base.{none, some, [], ◌∷◌}
use usbproxy.Descriptors.Endpoint.{Endpoint}
use usbproxy.Descriptors.Interface.{Interface}
use usbproxy.Descriptors.Configuration.{Configuration}

-- A mouse with one interrupt endpoint.
abbrev pub pointer : Endpoint
pointer = record { descriptor = 7 ∷ 5 ∷ 0x81 ∷ 3 ∷ 4 ∷ 0 ∷ 10 ∷ 0 ∷ 0 ∷ [] }

abbrev pub mouse : Interface
mouse = record {
  descriptor = 9 ∷ 4 ∷ 0 ∷ 0 ∷ 1 ∷ 3 ∷ 1 ∷ 2 ∷ 0 ∷ [];
  endpoints = some pointer ∷ [];
  hid_descriptor = none;
  generic_descriptors = [];
}

abbrev pub config : Configuration
config = record {
  descriptor = 9 ∷ 2 ∷ 25 ∷ 0 ∷ 1 ∷ 1 ∷ 0 ∷ 0xa0 ∷ 50 ∷ [];
  interface_groups =
      some (record {
        number = 0;
        alternate_count = 1;
        active_alternate_index = some 0;
        interfaces = some mouse ∷ [];
      })
      ∷ [];
}
