-- ===== src/KeyLogger.antt =====
-- Plugins/Filters/PacketFilter_KeyLogger.cpp: the filter that writes down what a keyboard types. A
-- text is its ASCII bytes; the file that it is written to is a list of what is printed.
mod Maps
pub mod Repeated
use Prim.Native.Nat.{bit_and}
use Maps.{key_map, shift_key_map}
use usbproxy.Base.{
  fun_ext, ℕ, zero, suc, ◌+◌, ◌-◌, ◌*◌, ◌/◌, ◌%◌, ◌^◌, ◌≤◌, ◌<◌, min, max, ◌≡◌, refl, sym, ap, ap₂,
  subst, ◌∙◌, ◌≢◌, ◌↔◌, ◌⊎◌, inl, inr, Bool, true, false, ◌&&◌, ◌||◌, not, Option, none, some, List,
  [], ◌∷◌, ◌++◌, map, append-nil, append_assoc, arith, ltb, leb, ◌==◌, if◌then◌else◌, ltb→lt,
  lt→ltb, leb→le, le→leb, lt→leb, ==_iff, ==_refl, ==_ne, if-cases, below, below-holds, Bool-cases,
  Option-cases, length, get_elem?, get_or, set, take, drop, replicate, length-append, length-set,
  get_elem?-set_self, get_elem?-set_ne, get_elem?-none, get_elem?-some, get_elem?-append_left,
  get_elem?-append_right, get_elem?-inside, get_elem?-replicate, get_elem?-take, take-append_length,
  drop-append_length, take-append_left, take_all, length-take, length-drop, length-replicate, All,
  All-append, All-get_elem?, All-set, All-replicate, get_elem?-at, set-at, Bytes, u8, u16, has,
}
use usbproxy.Result.{Result, ok, fault, exits, spins, ◌>>=◌, deref, at_index, read_bytes}
use usbproxy.Packet.{Packet}

-- What one `fprintf` prints: in red, in blue, or as it is.
pub data Print : Type 0 where
  red : Bytes → Print
  blue : Bytes → Print
  plain : Bytes → Print

-- The names that are printed for the bits of `mods`: {LCTRL}, {LSHIFT}, {LALT}, {LWIN}, {RCTRL},
-- {RSHIFT}, {RALT}, {RWIN}.
abbrev pub left : Bytes → Bytes
left name = 123 ∷ 76 ∷ name

abbrev pub right : Bytes → Bytes
right name = 123 ∷ 82 ∷ name

abbrev pub ctrl : Bytes
ctrl = 67 ∷ 84 ∷ 82 ∷ 76 ∷ 125 ∷ []

abbrev pub shift : Bytes
shift = 83 ∷ 72 ∷ 73 ∷ 70 ∷ 84 ∷ 125 ∷ []

abbrev pub alt : Bytes
alt = 65 ∷ 76 ∷ 84 ∷ 125 ∷ []

abbrev pub win : Bytes
win = 87 ∷ 73 ∷ 78 ∷ 125 ∷ []

-- {INVALID}
abbrev pub invalid : Bytes
invalid = 123 ∷ 73 ∷ 78 ∷ 86 ∷ 65 ∷ 76 ∷ 73 ∷ 68 ∷ 125 ∷ []

abbrev pub when : Bool → Print → List Print
when true o = o ∷ []
when false o = []

-- A text of several characters that starts with `{` is the name of a key.
abbrev pub print_text : Bytes → Print
print_text [] = plain []
print_text (c ∷ []) = plain (c ∷ [])
print_text (c ∷ d ∷ cs) = if c == 123 then blue (c ∷ d ∷ cs) else plain (c ∷ d ∷ cs)

-- The arrays of the object; a text that is `none` is a null pointer.
pub record Logger : Type 0 where
  pub keys : List (Option Bytes)
  pub shift_keys : List (Option Bytes)
  pub last_report : Bytes

-- The assignments of the constructor, over the entries that the array had.
unfoldable pub assign : List (Option Bytes) → List (Option Bytes) → List (Option Bytes)
assign [] old = old
assign (t ∷ ts) [] = []
assign (none ∷ ts) (o ∷ os) = o ∷ assign ts os
assign (some t ∷ ts) (o ∷ os) = some t ∷ assign ts os

-- The constructor on the memory that it is given: it writes neither `lastReport` nor the entries of
-- the keys that have no text.
unfoldable pub init : Logger → Logger
init memory = record memory {
  keys = assign key_map memory.keys;
  shift_keys = assign shift_key_map memory.shift_keys;
}

-- `keyPressed`, for a key code that is not 0: what is printed before the key.
unfoldable pub print_mods : ℕ → List Print
print_mods mods =
    when (has mods 0x01) (red (left ctrl))
    ++ when (has mods 0x04) (red (left alt))
    ++ when (has mods 0x08) (red (left win))
    ++ when (has mods 0x10) (red (right ctrl))
    ++ when (has mods 0x40) (red (right alt))
    ++ when (has mods 0x80) (red (right win))

-- The text of the key: with shift the one of `shiftKeyMap`, where that has one.
unfoldable pub text_of : Logger → ℕ → ℕ → Result (Option Bytes)
text_of s code mods =
    let plain_text = at_index s.keys code in
    if has mods 0x22
    then (at_index s.shift_keys code >>= λ text. elim text [
      | none ↦ plain_text
      | some t ↦ ok (some t)
    ])
    else plain_text

abbrev pub or_invalid : Option Bytes → Print
or_invalid none = plain invalid
or_invalid (some t) = print_text t

-- For the key code 0.
unfoldable pub print_only_mods : ℕ → List Print
print_only_mods mods =
    when (has mods 0x01) (blue (left ctrl))
    ++ when (has mods 0x02) (blue (left shift))
    ++ when (has mods 0x04) (blue (left alt))
    ++ when (has mods 0x08) (blue (left win))
    ++ when (has mods 0x10) (blue (right ctrl))
    ++ when (has mods 0x20) (blue (right shift))
    ++ when (has mods 0x40) (blue (right alt))
    ++ when (has mods 0x80) (blue (right win))

unfoldable pub key_pressed : Logger → ℕ → ℕ → Result (List Print)
key_pressed s code mods =
    if code == 0
    then ok (print_only_mods mods)
    else (text_of s code mods >>= λ text. ok (print_mods mods ++ (or_invalid text ∷ [])))

-- `data[i] == lastReport[j]`, a byte and a `char`, which is signed: from 128 on it is negative and
-- no byte is equal to it.
abbrev pub is_char : ℕ → ℕ → Bool
is_char d l = ltb l 128 && d == l

-- The inner loop.
unfoldable pub is_held : ℕ → Bytes → Bool
is_held d [] = false
is_held d (l ∷ ls) = is_char d l || is_held d ls

-- The outer loop, for `n` more indices from `i`: whether every key was found, and what is printed.
unfoldable pub scan : Logger → ℕ → Bytes → ℕ → ℕ → Result (Bool × List Print)
scan s mods report zero i = ok (true, [])
scan s mods report (suc n) i = at_index report i >>= λ d.
    (if is_held d s.last_report then ok [] else key_pressed s d mods) >>= λ out.
    scan s mods report n (suc i) >>= λ rest. ok (is_held d s.last_report && rest.0, out ++ rest.1)

-- `filter_packet` on the bytes of a packet: the logger after it, and what is printed.
unfoldable pub filter_packet : Logger → Bytes → Result (Logger × List Print)
filter_packet s report = at_index report 0 >>= λ mods. at_index s.last_report 0 >>= λ old.
    scan s mods report 6 2 >>= λ r.
    (if r.0 then key_pressed s 0 (bit_and mods (255 - old)) else ok []) >>= λ out.
    read_bytes 8 report >>= λ last. ok (record s { last_report = last }, r.1 ++ out)
