-- ===== src/Network/Exchange.antt =====
-- Plugins/Devices/DeviceProxy_TCP.cpp and Plugins/Hosts/HostProxy_TCP.cpp as the two ends of one
-- connection.
use usbproxy.Descriptors.Interface.{body}
use usbproxy.Result.{◌>>=◌, ◌>>=◌, read_bytes}
use usbproxy.Network.Device.{answer_in, request_message}
use usbproxy.Base.{
  ℕ, ◌+◌, ◌*◌, ◌/◌, ◌%◌, ◌≤◌, min, ◌≡◌, refl, sym, ap, ◌∙◌, ◌⊎◌, inl, inr, true, Option, none, some,
  [], ◌++◌, append-nil, arith, leb, if◌then◌else◌, leb→le, le→leb, Bool-cases, length, take,
  take_all, Bytes, has,
}
use usbproxy.Packet.{CtrlRequest, request_bytes}
use usbproxy.Network.{fault, Result, ok, receive_data, arrived, tcp_buffer_size}
use usbproxy.Network.Device
use usbproxy.Network.Host
use usbproxy.Network.Host.{
  overwritten, DataPointer, null, request_in, reply_message, ack_message, stall_message,
}

-- What the host's side answers to a request.
pub data Answer : Type 0 where
  sends : Bytes → Answer
  acknowledges stalls : Answer

abbrev pub wire : Answer → Bytes
wire (sends bytes) = reply_message bytes
wire acknowledges = ack_message
wire stalls = stall_message

-- What the device's side is to return.
abbrev pub expected : CtrlRequest → Answer → Option Bytes
expected s (sends bytes) = some (take s.length bytes)
expected s acknowledges = some []
expected s stalls = none

-- An answer fits into the buffer of the connection with its header.
abbrev pub Fits : Answer → Type 0
Fits a = length (wire a) ≤ tcp_buffer_size

joined_word : (n : ℕ) → n % 256 + n / 256 * 256 ≡ n
joined_word n = omega arith

request_in-request_bytes :
    (s : CtrlRequest) (rest : Bytes) → request_in (request_bytes s ++ rest) ≡ some s
unfolding request_in request_bytes
request_in-request_bytes s rest =
    rw (joined_word s.value, joined_word s.index, joined_word s.length) refl

-- A request with no data of its own.
abbrev pub CarriesNothing : CtrlRequest → Type 0
CarriesNothing s = (has s.request_type 0x80 ≡ true) ⊎ (s.length ≡ 0)

read_bytes_enough : (n : ℕ) (bs : Bytes) → n ≤ length bs → read_bytes n bs ≡ ok (take n bs)
read_bytes_enough n bs h = rw (le→leb n (length bs) h) refl

take-min : (n : ℕ) (bs : Bytes) → take (min n (length bs)) bs ≡ take n bs
take-min n bs = elim (Bool-cases (leb n (length bs))) [
  | inl enough ↦
      let same : min n (length bs) ≡ n = let h = leb→le n (length bs) enough in omega arith in
      ap (λ k. take k bs) same
  | inr short ↦
      let less : length bs ≤ n = ground (arith, short) in
      let same : min n (length bs) ≡ length bs = omega arith in
      ap (λ k. take k bs) same ∙ take_all (length bs) bs (omega arith) ∙ sym (take_all n bs less)
]

request_message-carries :
    (s : CtrlRequest) (d : Bytes) → CarriesNothing s → request_message s d ≡ ok (request_bytes s)
unfolding request_message
request_message-carries s d (inl inward) = rw inward refl
request_message-carries s d (inr empty) = elim (Bool-cases (has s.request_type 0x80)) [
  | inl inward ↦ rw inward refl
  | inr outward ↦ rw outward (
      ap (λ r. r >>= λ body. ok (request_bytes s ++ body))
        (ap (λ n. read_bytes n d) empty ∙ read_bytes_enough 0 d (omega arith))
      ∙ ap ok (append-nil (request_bytes s)))
]

answer_in-wire : (s : CtrlRequest) (a : Answer) → Fits a → answer_in s (wire a) ≡ ok (expected s a)
unfolding answer_in reply_message ack_message stall_message
answer_in-wire s (sends bytes) fits =
    let size : length bytes / 256 % 256 * 256 + length bytes % 256 ≡ length bytes = omega arith in
    rw size (
      rw
        (
          read_bytes_enough (min s.length (length bytes)) bytes (omega arith),
          take-min s.length bytes,
        )
        refl)
answer_in-wire s acknowledges fits =
    let nothing_left : min s.length 0 ≡ 0 = omega arith in rw nothing_left refl
answer_in-wire s stalls fits = refl

control_request-nothing :
    (s : CtrlRequest)
    → CarriesNothing s
    → Host.control_request (arrived (request_bytes s)) ≡ ok (some (s, null, 0))
unfolding Host.control_request request_bytes
control_request-nothing s (inl inward) =
    rw (joined_word s.value, joined_word s.index, joined_word s.length, inward) refl
control_request-nothing s (inr empty) = elim (Bool-cases (has s.request_type 0x80)) [
  | inl inward ↦ rw (joined_word s.value, joined_word s.index, joined_word s.length, inward) refl
  | inr outward ↦
      rw (joined_word s.value, joined_word s.index, joined_word s.length, outward, empty) refl
]

-- A request without data reaches the host's side as it is, and whatever that side answers, bytes,
-- an acknowledgement or a stall, comes back as the answer on the device's side, cut to the length
-- that was asked for, if it fits into one buffer of the connection.
pub control_request-answered :
    (s : CtrlRequest) (d : Bytes) (a : Answer)
    → CarriesNothing s
    → Fits a
    → (Host.control_request (arrived (request_bytes s)) ≡ ok (some (s, null, 0)))
      × (Device.control_request s d (arrived (wire a)) ≡ ok (request_bytes s, expected s a))
unfolding Device.control_request receive_data
control_request-answered s d a c fits = (
  control_request-nothing s c,
  rw
      (
        request_message-carries s d c,
        take_all tcp_buffer_size (wire a) fits,
        answer_in-wire s a fits,
      )
      refl,
)

-- What the host's side makes of the data of a request.
abbrev pub misplaced : Bytes → Result DataPointer
misplaced bytes = if leb (length bytes) 8 then ok (overwritten bytes) else fault
