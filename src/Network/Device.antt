-- ===== src/Network/Device.antt =====
-- Plugins/Devices/DeviceProxy_TCP.cpp: the device is at the other end of a connection.
use usbproxy.Base.{
  ℕ, ◌+◌, ◌*◌, min, not, Option, none, some, [], ◌∷◌, ◌++◌, ◌==◌, if◌then◌else◌, Bytes, has,
}
use usbproxy.Result.{Result, ok, fault, ◌>>=◌, read_bytes}
use usbproxy.Packet.{CtrlRequest, request_bytes}
use usbproxy.Descriptors.Configuration.{Configuration}
use usbproxy.Tcp.{Helper, Code}
use usbproxy.Network.{Incoming, receive_data, endpoints_of, open_until}

-- The message for a control request: the request, and its data where it goes out.
unfoldable pub request_message : CtrlRequest → Bytes → Result Bytes
request_message s data_bytes =
    if has s.request_type 0x80
    then ok (request_bytes s)
    else (read_bytes s.length data_bytes >>= λ body. ok (request_bytes s ++ body))

-- The answer in a reply; `none` is -1, a stall.
unfoldable pub answer_in : CtrlRequest → Bytes → Result (Option Bytes)
answer_in s [] = ok none
answer_in s (status ∷ rest) = if not (status == 0) then ok none else elim rest [
  | high ∷ (low ∷ body) ↦
      (read_bytes (min s.length (high * 256 + low)) body >>= λ bytes. ok (some bytes))
  | _ ↦ fault
]

-- What is sent, and what the request is answered with.
unfoldable pub control_request : CtrlRequest → Bytes → Incoming → Result (Bytes × Option Bytes)
unfolding receive_data request_message answer_in
control_request s data_bytes incoming = do
  message ← request_message s data_bytes
  reply ← receive_data incoming
  answer ← answer_in s reply
  ok (message, answer)

unfoldable pub set_config :
    ℕ → (Bytes → Helper → Result (Helper × Code)) → Configuration → Helper → Result Helper
unfolding endpoints_of open_until
set_config fuel opener c h = do eps ← endpoints_of c; open_until fuel opener eps h
