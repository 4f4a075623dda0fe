-- ===== src/KeyLogger/Maps.antt =====
-- The tables of Plugins/Filters/PacketFilter_KeyLogger.cpp: the text of each key code, without and
-- with shift, as ASCII bytes. `none` is an entry that the constructor leaves as it was.
use mathlib.Core.Option.{Option, none, some}
use mathlib.Core.List.{List, [], ◌∷◌}
use usbproxy.Base.{Option, none, some, List, [], ◌∷◌, Bytes}

abbrev pub key_map : List (Option Bytes)
key_map =
    none
    ∷ none
    ∷ none
    ∷ none
    ∷ some (97 ∷ [])
    ∷ some (98 ∷ [])
    ∷ some (99 ∷ [])
    ∷ some (100 ∷ [])
    ∷ some (101 ∷ [])
    ∷ some (102 ∷ [])
    ∷ some (103 ∷ [])
    ∷ some (104 ∷ [])
    ∷ some (105 ∷ [])
    ∷ some (106 ∷ [])
    ∷ some (107 ∷ [])
    ∷ some (108 ∷ [])
    ∷ some (109 ∷ [])
    ∷ some (110 ∷ [])
    ∷ some (111 ∷ [])
    ∷ some (112 ∷ [])
    ∷ some (113 ∷ [])
    ∷ some (114 ∷ [])
    ∷ some (115 ∷ [])
    ∷ some (116 ∷ [])
    ∷ some (117 ∷ [])
    ∷ some (118 ∷ [])
    ∷ some (119 ∷ [])
    ∷ some (120 ∷ [])
    ∷ some (121 ∷ [])
    ∷ some (122 ∷ [])
    ∷ some (49 ∷ [])
    ∷ some (50 ∷ [])
    ∷ some (51 ∷ [])
    ∷ some (52 ∷ [])
    ∷ some (53 ∷ [])
    ∷ some (54 ∷ [])
    ∷ some (55 ∷ [])
    ∷ some (56 ∷ [])
    ∷ some (57 ∷ [])
    ∷ some (48 ∷ [])
    ∷ some (10 ∷ [])
    ∷ some (123 ∷ 69 ∷ 83 ∷ 67 ∷ 125 ∷ [])
    ∷ some (8 ∷ 32 ∷ 8 ∷ [])
    ∷ some (9 ∷ [])
    ∷ some (32 ∷ [])
    ∷ some (45 ∷ [])
    ∷ some (61 ∷ [])
    ∷ some (91 ∷ [])
    ∷ some (93 ∷ [])
    ∷ some (92 ∷ [])
    ∷ none
    ∷ some (59 ∷ [])
    ∷ some (39 ∷ [])
    ∷ some (96 ∷ [])
    ∷ some (44 ∷ [])
    ∷ some (46 ∷ [])
    ∷ some (47 ∷ [])
    ∷ some (123 ∷ 67 ∷ 65 ∷ 80 ∷ 83 ∷ 32 ∷ 76 ∷ 79 ∷ 67 ∷ 75 ∷ 125 ∷ [])
    ∷ some (123 ∷ 70 ∷ 49 ∷ 125 ∷ [])
    ∷ some (123 ∷ 70 ∷ 50 ∷ 125 ∷ [])
    ∷ some (123 ∷ 70 ∷ 51 ∷ 125 ∷ [])
    ∷ some (123 ∷ 70 ∷ 52 ∷ 125 ∷ [])
    ∷ some (123 ∷ 70 ∷ 53 ∷ 125 ∷ [])
    ∷ some (123 ∷ 70 ∷ 54 ∷ 125 ∷ [])
    ∷ some (123 ∷ 70 ∷ 55 ∷ 125 ∷ [])
    ∷ some (123 ∷ 70 ∷ 56 ∷ 125 ∷ [])
    ∷ some (123 ∷ 70 ∷ 57 ∷ 125 ∷ [])
    ∷ some (123 ∷ 70 ∷ 49 ∷ 48 ∷ 125 ∷ [])
    ∷ some (123 ∷ 70 ∷ 49 ∷ 49 ∷ 125 ∷ [])
    ∷ some (123 ∷ 70 ∷ 49 ∷ 50 ∷ 125 ∷ [])
    ∷ some (123 ∷ 80 ∷ 82 ∷ 84 ∷ 32 ∷ 83 ∷ 67 ∷ 82 ∷ 125 ∷ [])
    ∷ some (123 ∷ 83 ∷ 67 ∷ 82 ∷ 32 ∷ 76 ∷ 79 ∷ 67 ∷ 75 ∷ 125 ∷ [])
    ∷ some (123 ∷ 80 ∷ 65 ∷ 85 ∷ 83 ∷ 69 ∷ 125 ∷ [])
    ∷ some (123 ∷ 73 ∷ 78 ∷ 83 ∷ 69 ∷ 82 ∷ 84 ∷ 125 ∷ [])
    ∷ some (123 ∷ 72 ∷ 79 ∷ 77 ∷ 69 ∷ 125 ∷ [])
    ∷ some (123 ∷ 80 ∷ 71 ∷ 32 ∷ 85 ∷ 80 ∷ 125 ∷ [])
    ∷ some (123 ∷ 68 ∷ 69 ∷ 76 ∷ 69 ∷ 84 ∷ 69 ∷ 125 ∷ [])
    ∷ some (123 ∷ 69 ∷ 78 ∷ 68 ∷ 125 ∷ [])
    ∷ some (123 ∷ 80 ∷ 71 ∷ 32 ∷ 68 ∷ 79 ∷ 87 ∷ 78 ∷ 125 ∷ [])
    ∷ some (27 ∷ 91 ∷ 49 ∷ 67 ∷ [])
    ∷ some (27 ∷ 91 ∷ 49 ∷ 68 ∷ [])
    ∷ some (27 ∷ 91 ∷ 49 ∷ 66 ∷ [])
    ∷ some (27 ∷ 91 ∷ 49 ∷ 65 ∷ [])
    ∷ some (123 ∷ 78 ∷ 85 ∷ 77 ∷ 32 ∷ 76 ∷ 79 ∷ 67 ∷ 75 ∷ 125 ∷ [])
    ∷ some (47 ∷ [])
    ∷ some (42 ∷ [])
    ∷ some (45 ∷ [])
    ∷ some (43 ∷ [])
    ∷ none
    ∷ some (49 ∷ [])
    ∷ some (50 ∷ [])
    ∷ some (51 ∷ [])
    ∷ some (52 ∷ [])
    ∷ some (53 ∷ [])
    ∷ some (54 ∷ [])
    ∷ some (55 ∷ [])
    ∷ some (56 ∷ [])
    ∷ some (57 ∷ [])
    ∷ some (48 ∷ [])
    ∷ none
    ∷ some (92 ∷ [])
    ∷ some (123 ∷ 80 ∷ 82 ∷ 79 ∷ 80 ∷ 69 ∷ 82 ∷ 84 ∷ 73 ∷ 69 ∷ 83 ∷ 125 ∷ [])
    ∷ []

abbrev pub shift_key_map : List (Option Bytes)
shift_key_map =
    none
    ∷ none
    ∷ none
    ∷ none
    ∷ some (65 ∷ [])
    ∷ some (66 ∷ [])
    ∷ some (67 ∷ [])
    ∷ some (68 ∷ [])
    ∷ some (69 ∷ [])
    ∷ some (70 ∷ [])
    ∷ some (71 ∷ [])
    ∷ some (72 ∷ [])
    ∷ some (73 ∷ [])
    ∷ some (74 ∷ [])
    ∷ some (75 ∷ [])
    ∷ some (76 ∷ [])
    ∷ some (77 ∷ [])
    ∷ some (78 ∷ [])
    ∷ some (79 ∷ [])
    ∷ some (80 ∷ [])
    ∷ some (81 ∷ [])
    ∷ some (82 ∷ [])
    ∷ some (83 ∷ [])
    ∷ some (84 ∷ [])
    ∷ some (85 ∷ [])
    ∷ some (86 ∷ [])
    ∷ some (87 ∷ [])
    ∷ some (88 ∷ [])
    ∷ some (89 ∷ [])
    ∷ some (90 ∷ [])
    ∷ some (33 ∷ [])
    ∷ some (64 ∷ [])
    ∷ some (35 ∷ [])
    ∷ some (36 ∷ [])
    ∷ some (37 ∷ [])
    ∷ some (94 ∷ [])
    ∷ some (38 ∷ [])
    ∷ some (42 ∷ [])
    ∷ some (40 ∷ [])
    ∷ some (41 ∷ [])
    ∷ none
    ∷ none
    ∷ none
    ∷ none
    ∷ none
    ∷ some (95 ∷ [])
    ∷ some (43 ∷ [])
    ∷ some (123 ∷ [])
    ∷ some (125 ∷ [])
    ∷ some (124 ∷ [])
    ∷ none
    ∷ some (58 ∷ [])
    ∷ some (34 ∷ [])
    ∷ some (126 ∷ [])
    ∷ some (60 ∷ [])
    ∷ some (62 ∷ [])
    ∷ some (63 ∷ [])
    ∷ none
    ∷ none
    ∷ none
    ∷ none
    ∷ none
    ∷ none
    ∷ none
    ∷ none
    ∷ none
    ∷ none
    ∷ none
    ∷ none
    ∷ none
    ∷ none
    ∷ none
    ∷ none
    ∷ none
    ∷ none
    ∷ none
    ∷ none
    ∷ none
    ∷ none
    ∷ none
    ∷ none
    ∷ none
    ∷ none
    ∷ none
    ∷ none
    ∷ none
    ∷ none
    ∷ none
    ∷ none
    ∷ none
    ∷ none
    ∷ none
    ∷ none
    ∷ none
    ∷ none
    ∷ none
    ∷ none
    ∷ none
    ∷ none
    ∷ none
    ∷ some (124 ∷ [])
    ∷ none
    ∷ []
