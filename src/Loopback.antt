-- ===== src/Loopback.antt =====
-- Plugins/Devices/DeviceProxy_Loopback.cpp: a device that has packets sent to it handed back. The
-- memory that is never freed is not modelled.
pub mod Occupancy
pub mod Requests
use usbproxy.Base.{
  fun_ext, ℕ, zero, suc, ◌+◌, ◌-◌, ◌*◌, ◌/◌, ◌%◌, ◌^◌, ◌≤◌, ◌<◌, min, max, ◌≡◌, refl, sym, ap, ap₂,
  subst, ◌∙◌, ◌≢◌, ◌↔◌, ◌⊎◌, inl, inr, Bool, true, false, ◌&&◌, ◌||◌, not, Option, none, some, List,
  [], ◌∷◌, ◌++◌, map, append-nil, append_assoc, arith, ltb, leb, ◌==◌, if◌then◌else◌, ltb→lt,
  lt→ltb, leb→le, le→leb, lt→leb, ==_iff, ==_refl, ==_ne, if-cases, below, below-holds, Bool-cases,
  Option-cases, length, get_elem?, get_or, set, take, drop, replicate, length-append, length-set,
  get_elem?-set_self, get_elem?-set_ne, get_elem?-none, get_elem?-some, get_elem?-append_left,
  get_elem?-append_right, get_elem?-inside, get_elem?-replicate, get_elem?-take, take-append_length,
  drop-append_length, take-append_left, take_all, length-take, length-drop, length-replicate, All,
  All-append, All-get_elem?, All-set, All-replicate, get_elem?-at, set-at, Bytes, u8, u16, has,
}
use usbproxy.Packet.{CtrlRequest}
use usbproxy.Result.{Result, ok, fault, exits, spins, ◌>>=◌, deref, at_index, put_index, read_bytes}
use usbproxy.Strings.{UsbString, from_ascii, from_unicode}

abbrev pub buf_len : ℕ
buf_len = 100

-- `data_bytes` is `none` for the null pointer.
pub record Pkt : Type 0 where
  pub length : ℕ
  pub data_bytes : Option Bytes

-- The ring; `buffer` is `none` for the null pointer.
pub record Ring : Type 0 where
  pub is_connected : Bool
  pub buffer : Option (List Pkt)
  pub head : ℕ
  pub tail : ℕ
  pub full : Bool

-- A zeroed entry of `calloc`.
abbrev pub empty_pkt : Pkt
empty_pkt = record { length = 0; data_bytes = none }

-- As the constructors leave it.
unfoldable pub init : Ring
init = record { is_connected = false; buffer = none; head = 0; tail = 0; full = false }

unfoldable pub connect : Ring → Ring
connect r = record {
  is_connected = true;
  buffer = some (replicate buf_len empty_pkt);
  head = 0;
  tail = 0;
  full = false;
}

unfoldable pub disconnect : Ring → Ring
disconnect r = record r { buffer = none; full = false; is_connected = false }

unfoldable pub reset : Ring → Ring
reset r = record r { head = 0; tail = 0; full = false }

-- The entry at the tail is copied, and the copy, not the entry, gets the data.
unfoldable pub send_data : Ring → Bytes → Result Ring
send_data r bytes = if r.head == r.tail && r.full then ok r else (do
  buffer ← deref r.buffer
  pkt ← at_index buffer r.tail
  let next : Pkt = record pkt { length = length bytes; data_bytes = some bytes }
  buffer' ← put_index buffer r.tail (record pkt { data_bytes = none })
  let tail' = (r.tail + 1) % buf_len
  ok (record r { buffer = some buffer'; tail = tail'; full = r.head == tail' }))

-- What is stored through `dataptr`, if anything, and through `length`.
unfoldable pub receive_data : Ring → Result (Ring × Option (Option Bytes) × ℕ)
receive_data r = if r.head == r.tail && not r.full then ok (r, none, 0) else (do
  buffer ← deref r.buffer
  next ← at_index buffer r.head
  let head' = (r.head + 1) % buf_len
  ok (record r { head = head'; full = not (head' == r.tail) }, some next.data_bytes, next.length))

-- The descriptors of the device. The vendor and the product are numbers of 16 bits.
abbrev pub device_descriptor : ℕ → ℕ → Bytes
device_descriptor vendor product =
    18
    ∷ 1
    ∷ 0
    ∷ 1
    ∷ 0xff
    ∷ 0
    ∷ 0
    ∷ 64
    ∷ vendor % 256
    ∷ vendor / 256
    ∷ product % 256
    ∷ product / 256
    ∷ 0
    ∷ 0
    ∷ 1
    ∷ 2
    ∷ 3
    ∷ 1
    ∷ []

abbrev pub config_descriptor : Bytes
config_descriptor = 9 ∷ 2 ∷ 32 ∷ 0 ∷ 1 ∷ 1 ∷ 4 ∷ 0xc0 ∷ 1 ∷ []

abbrev pub interface_descriptor : Bytes
interface_descriptor = 9 ∷ 4 ∷ 0 ∷ 0 ∷ 2 ∷ 0xff ∷ 0 ∷ 0 ∷ 4 ∷ []

abbrev pub endpoints : Bytes
endpoints = 7 ∷ 5 ∷ 0x81 ∷ 3 ∷ 64 ∷ 0 ∷ 10 ∷ 7 ∷ 5 ∷ 1 ∷ 3 ∷ 64 ∷ 0 ∷ 10 ∷ []

-- "Manufacturer", "Product", "Serial" and "Loopback".
abbrev pub named : List UsbString
named =
    from_ascii (77 ∷ 97 ∷ 110 ∷ 117 ∷ 102 ∷ 97 ∷ 99 ∷ 116 ∷ 117 ∷ 114 ∷ 101 ∷ 114 ∷ []) 1 0x409
    ∷ from_ascii (80 ∷ 114 ∷ 111 ∷ 100 ∷ 117 ∷ 99 ∷ 116 ∷ []) 2 0x409
    ∷ from_ascii (83 ∷ 101 ∷ 114 ∷ 105 ∷ 97 ∷ 108 ∷ []) 3 0x409
    ∷ from_ascii (76 ∷ 111 ∷ 111 ∷ 112 ∷ 98 ∷ 97 ∷ 99 ∷ 107 ∷ []) 4 0x409
    ∷ []

-- The table of strings, with the languages in front.
unfoldable pub strings : Result (List UsbString)
unfolding from_unicode
strings = do zero_string ← from_unicode (0x409 ∷ 0 ∷ []) 0 0; ok (zero_string ∷ named)

-- How `control_request` ends: -1, or 0 with the bytes stored, or 0 with nothing stored.
pub data Answer : Type 0 where
  stalls : Answer
  answers : Bytes → Answer
  silent : Answer

unfoldable pub config_answer : CtrlRequest → Result Answer
config_answer r =
    let buf = config_descriptor ++ (interface_descriptor ++ endpoints) in
    if leb 1 (r.value % 256)
    then ok stalls
    else (do d ← read_bytes (if ltb r.length 32 then r.length else 32) buf; ok (answers d))

unfoldable pub string_answer : CtrlRequest → Result Answer
unfolding strings
string_answer r =
    let index = r.value % 256 in
    if ltb 0 index && not (r.index == 0x409)
    then ok stalls
    else if ltb 4 index
    then ok stalls
    else (do
      table ← strings
      s ← at_index table index
      len ← at_index s.descriptor 0
      d ← read_bytes (if ltb r.length len then r.length else len) s.descriptor
      ok (answers d))

unfoldable pub descriptor_answer : ℕ → ℕ → CtrlRequest → Result Answer
unfolding config_answer string_answer
descriptor_answer vendor product r =
    let kind = r.value / 256 in
    if kind == 1
    then ok (answers (device_descriptor vendor product))
    else if kind == 2
    then config_answer r
    else if kind == 3
    then string_answer r
    else if kind == 6
    then ok stalls
    else if kind == 7
    then ok stalls
    else ok silent

unfoldable pub control_request : ℕ → ℕ → CtrlRequest → Result Answer
unfolding descriptor_answer
control_request vendor product r =
    if has r.request_type 0x80 && r.request == 6
    then descriptor_answer vendor product r
    else if has r.request_type 0x80 && r.request == 8
    then ok (answers (1 ∷ []))
    else if has r.request_type 0x80 && r.request == 10
    then ok (answers (1 ∷ []))
    else ok silent
