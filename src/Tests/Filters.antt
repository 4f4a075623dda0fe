-- ===== src/Tests/Filters.antt =====
-- lib/PacketFilter.cpp on small inputs.
use usbproxy.Base.{◌≤◌, ◌≡◌, refl, ◌↔◌, Bool, true, none, some, [], ◌∷◌, arith, replicate}
use usbproxy.Result.{ok}
use usbproxy.Packet.{Packet, SetupPacket}
use usbproxy.Filter.{PacketFilter, test_packet}
use usbproxy.Filter.Matching.{IsValid, Agree, test_packet_iff}

-- A filter on the first two bytes: the first is 5, and the second has its low bit set.
abbrev odd_fives : PacketFilter
odd_fives = record {
  packet_header = 5 ∷ 1 ∷ replicate 6 0;
  packet_header_mask = 255 ∷ 1 ∷ replicate 6 0;
  packet_header_mask_length = 2;
  packet_header_setup_out = true;
  packet_header_setup_in = true;
}

odd_fives-IsValid : IsValid odd_fives
odd_fives-IsValid = record { header = refl; mask = refl; limit = omega arith }

abbrev five_seven : Packet
five_seven = record {
  endpoint = 1;
  length = 3;
  filter = true;
  transmit = true;
  data_bytes = some (5 ∷ 7 ∷ 9 ∷ []);
}

test_packet_iff_example :
    (b : Bool) × (test_packet odd_fives five_seven ≡ ok b)
    × ((b ≡ true)
        ↔ ((2 ≤ 3) × Agree 2 odd_fives.packet_header_mask odd_fives.packet_header (5 ∷ 7 ∷ 9 ∷ [])))
test_packet_iff_example =
    test_packet_iff odd_fives five_seven (5 ∷ 7 ∷ 9 ∷ []) odd_fives-IsValid refl refl

abbrev get_status : SetupPacket
get_status = record {
  ctrl_req = record { request_type = 0x80; request = 0; value = 0; index = 0; length = 2 };
  data_bytes = none;
  source = 0;
  filter = true;
  transmit = true;
  filter_out = true;
  transmit_out = true;
  filter_in = true;
  transmit_in = true;
}
