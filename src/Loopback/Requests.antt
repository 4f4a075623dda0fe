-- ===== src/Loopback/Requests.antt =====
-- The answers of the loopback device to control requests.
use usbproxy.Base.{ℕ, ◌/◌, ◌≤◌, ◌≡◌, [], ◌∷◌, ◌==◌, if◌then◌else◌, length}
use usbproxy.Packet.{CtrlRequest}
use usbproxy.Result.{Result, ok, at_index}
use usbproxy.Strings.{from_unicode, from_ascii, UsbString}
use usbproxy.Loopback.{from_ascii, from_unicode, UsbString, Answer, stalls, answers, silent}

abbrev pub answer_size : Answer → ℕ
answer_size stalls = 0
answer_size (answers bytes) = length bytes
answer_size silent = 0

-- The answer, if there is one, has at most `n` bytes.
abbrev Bounded : Result Answer → ℕ → Type 0
Bounded a n = (b : Answer) × (a ≡ ok b) × (answer_size b ≤ n)

-- A descriptor holds at least the bytes that its length says.
abbrev IsSound : UsbString → Type 0
IsSound s = (len : ℕ) × (at_index s.descriptor 0 ≡ ok len) × (len ≤ length s.descriptor)

abbrev languages : UsbString
languages = record { descriptor = 4 ∷ 3 ∷ 9 ∷ 4 ∷ []; index = 0; language_id = 0 }

-- The limit on an answer: the length that the request gives, but for the device descriptor, which
-- is sent whole, and the two one-byte answers.
abbrev pub limit : CtrlRequest → ℕ
limit r = if r.request == 6 then (if r.value / 256 == 1 then 18 else r.length) else 1
