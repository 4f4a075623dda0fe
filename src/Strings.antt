-- ===== src/Strings.antt =====
-- lib/USBString.cpp: string descriptors. A descriptor is its bytes in memory: the length, the type,
-- and 16-bit words, low byte first.
pub mod Append
pub mod Ascii
use usbproxy.Base.{
  fun_ext, ℕ, zero, suc, ◌+◌, ◌-◌, ◌*◌, ◌/◌, ◌%◌, ◌^◌, ◌≤◌, ◌<◌, min, max, ◌≡◌, refl, sym, ap, ap₂,
  subst, ◌∙◌, ◌≢◌, ◌↔◌, ◌⊎◌, inl, inr, Bool, true, false, ◌&&◌, ◌||◌, not, Option, none, some, List,
  [], ◌∷◌, ◌++◌, map, append-nil, append_assoc, arith, ltb, leb, ◌==◌, if◌then◌else◌, ltb→lt,
  lt→ltb, leb→le, le→leb, lt→leb, ==_iff, ==_refl, ==_ne, if-cases, below, below-holds, Bool-cases,
  Option-cases, length, get_elem?, get_or, set, take, drop, replicate, length-append, length-set,
  get_elem?-set_self, get_elem?-set_ne, get_elem?-none, get_elem?-some, get_elem?-append_left,
  get_elem?-append_right, get_elem?-inside, get_elem?-replicate, get_elem?-take, take-append_length,
  drop-append_length, take-append_left, take_all, length-take, length-drop, length-replicate, All,
  All-append, All-get_elem?, All-set, All-replicate, get_elem?-at, set-at, Bytes, u8, u16, has,
}
use usbproxy.Packet.{CtrlRequest}
use usbproxy.Result.{
  Result, ok, fault, exits, spins, ◌>>=◌, at_index, read_bytes, put_index, overlay,
}
use usbproxy.Descriptors.Configuration.{Device, ask}

pub record UsbString : Type 0 where
  pub descriptor : Bytes
  pub index : ℕ
  pub language_id : ℕ

abbrev pub string_request : ℕ → ℕ → ℕ → CtrlRequest
string_request index language_id len = record {
  request_type = 0x80;
  request = 6;
  value = 3 * 256 + index;
  index = language_id;
  length = len;
}

-- From a device. `junk` is what `malloc` and `realloc` find in memory.
unfoldable pub from_device : Device → Bytes → ℕ → ℕ → Result UsbString
unfolding ask
from_device device junk index language_id = do
  a ← ask device (string_request index language_id 8) (take 8 junk)
  len ← at_index a.0 0
  let d = take len (a.0 ++ drop 8 junk)
  b ← if ltb 8 len then ask device (string_request index language_id len) d else ok (d, 8)
  ok (record { descriptor = b.0; index = index; language_id = language_id })

unfoldable pub from_descriptor : Bytes → ℕ → ℕ → Result UsbString
from_descriptor bytes index language_id = do
  len ← at_index bytes 0
  d ← read_bytes len bytes
  ok (record { descriptor = d; index = index; language_id = language_id })

-- The words as they lie in memory.
unfoldable pub word_bytes : List ℕ → Bytes
word_bytes [] = []
word_bytes (w ∷ ws) = w % 256 ∷ w / 256 ∷ word_bytes ws

-- A `char` that is stored into a `__u16`.
abbrev pub widen : ℕ → ℕ
widen c = if ltb c 128 then c else 0xff00 + c

-- From an ASCII string, given without its final zero.
unfoldable pub from_ascii : Bytes → ℕ → ℕ → UsbString
unfolding word_bytes
from_ascii value index language_id = record {
  descriptor = u8 ((length value + 1) * 2) ∷ 3 ∷ word_bytes (map widen value);
  index = index;
  language_id = language_id;
}

-- The words in front of the zero.
unfoldable pub until_zero : List ℕ → Result (List ℕ)
until_zero [] = fault
until_zero (w ∷ ws) = if w == 0 then ok [] else (do r ← until_zero ws; ok (w ∷ r))

-- From words that end with a zero.
unfoldable pub from_unicode : List ℕ → ℕ → ℕ → Result UsbString
unfolding word_bytes until_zero
from_unicode value index language_id = do
  ws ← until_zero value
  ok (record {
    descriptor = u8 ((length ws + 1) * 2) ∷ 3 ∷ word_bytes ws;
    index = index;
    language_id = language_id;
  })

-- A `__u8`: a length below 2 gives 255.
unfoldable pub get_char_count : UsbString → Result ℕ
get_char_count s = do len ← at_index s.descriptor 0; ok (u8 (len / 2 + 255))

-- The loop over the next `n` words.
unfoldable pub ascii_from : ℕ → ℕ → Bytes → Result Bytes
ascii_from zero i d = ok []
ascii_from (suc n) i d = do
  low ← at_index d (2 + 2 * i)
  high ← at_index d (3 + 2 * i)
  rest ← ascii_from n (suc i) d
  ok ((if high == 0 then low else 63) ∷ rest)

-- The string without its final zero.
unfoldable pub get_ascii : UsbString → Result Bytes
unfolding ascii_from
get_ascii s = do len ← at_index s.descriptor 0; ascii_from (len / 2 - 1) 0 s.descriptor

-- `realloc` leaves two bytes that are not set, `fresh`.
unfoldable pub append_char : UsbString → Bytes → ℕ → Result UsbString
append_char s fresh u = if not (s.index == 0) || not (s.language_id == 0) then ok s else (do
  old ← at_index s.descriptor 0
  let len = old + 2
  d ← put_index (take len (s.descriptor ++ fresh)) 0 (u8 len)
  if ltb (len / 2) 2 then fault else (do
    e ← put_index d (2 + 2 * (len / 2 - 2)) (u % 256)
    f ← put_index e (3 + 2 * (len / 2 - 2)) (u / 256)
    ok (record s { descriptor = f })))
