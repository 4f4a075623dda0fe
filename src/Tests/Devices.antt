-- ===== src/Tests/Devices.antt =====
-- lib/USBString.cpp, Plugins/Devices/DeviceProxy_Loopback.cpp
-- and Plugins/Filters/PacketFilter_KeyLogger.cpp on small inputs.
use usbproxy.Base.{
  ℕ, ◌≡◌, refl, none, List, [], ◌∷◌, map, arith, ltb, if◌then◌else◌, replicate, All, Bytes,
}
use usbproxy.Result.{ok}
use usbproxy.Packet.{CtrlRequest}
use usbproxy.Strings.{from_ascii, get_ascii}
use usbproxy.Strings.Ascii.{get_ascii-from_ascii}
use usbproxy.Loopback
use usbproxy.Loopback.{Ring, connect}
use usbproxy.Loopback.Occupancy.{Op, sends, receives, resets, run, level, Counts, run-connect}
use usbproxy.KeyLogger
use usbproxy.KeyLogger.{
  Logger, Print, plain, filter_packet, scan, is_held, key_pressed, text_of, print_mods,
  print_only_mods, assign,
}
use usbproxy.KeyLogger.Repeated.{filter_packet-twice}

get_ascii-from_ascii_example :
    get_ascii (from_ascii (72 ∷ 105 ∷ 200 ∷ []) 1 0x409)
    ≡ ok (map (λ c. if ltb c 128 then c else 63) (72 ∷ 105 ∷ 200 ∷ []))
get_ascii-from_ascii_example = get_ascii-from_ascii (72 ∷ 105 ∷ 200 ∷ []) 1 0x409 (omega arith)

abbrev traffic : List Op
traffic = sends (1 ∷ 2 ∷ []) ∷ receives ∷ receives ∷ resets ∷ sends [] ∷ []

run-connect_example :
    (r' : Ring) × (lengths : List ℕ) × (run (connect Loopback.init) traffic ≡ ok (r', lengths))
    × Counts r' (level 0 traffic)
    × All (λ k. k ≡ 0) lengths
run-connect_example = run-connect Loopback.init traffic

-- The start of a configuration descriptor.
abbrev get_config : CtrlRequest
get_config = record { request_type = 0x80; request = 6; value = 0x200; index = 0; length = 9 }

-- A keyboard's logger on cleared memory, and the report of the key a.
abbrev logger : Logger
logger = KeyLogger.init (record {
  keys = replicate 102 none;
  shift_keys = replicate 102 none;
  last_report = replicate 8 0;
})

abbrev key_a : Bytes
key_a = 0 ∷ 0 ∷ 4 ∷ 0 ∷ 0 ∷ 0 ∷ 0 ∷ 0 ∷ []

filter_packet-twice_example :
    filter_packet (record logger { last_report = key_a }) key_a
    ≡ ok (record logger { last_report = key_a }, [])
unfolding filter_packet scan is_held key_pressed text_of print_mods print_only_mods KeyLogger.init
    assign
filter_packet-twice_example =
    filter_packet-twice logger (record logger { last_report = key_a }) key_a (plain (97 ∷ []) ∷ [])
      (
        omega arith,
        (
          omega arith,
          (
            omega arith,
            (omega arith, (omega arith, (omega arith, (omega arith, (omega arith, tt))))),
          ),
        ),
      )
      refl
