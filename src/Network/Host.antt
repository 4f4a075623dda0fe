-- ===== src/Network/Host.antt =====
-- Plugins/Hosts/HostProxy_TCP.cpp: the host is at the other end of a connection.
use usbproxy.Base.{
  ℕ, ◌+◌, ◌-◌, ◌*◌, ◌/◌, ◌%◌, ◌||◌, Option, none, some, [], ◌∷◌, leb, ◌==◌, if◌then◌else◌, length,
  drop, Bytes, has,
}
use usbproxy.Result.{Result, ok, fault, ◌>>=◌}
use usbproxy.Packet.{CtrlRequest}
use usbproxy.Descriptors.Configuration.{Configuration}
use usbproxy.Tcp.{Helper, Code}
use usbproxy.Network.{Incoming, receive_data, endpoints_of, open_until}

-- The request in the first eight bytes of a message.
unfoldable pub request_in : Bytes → Option CtrlRequest
request_in (t ∷ (r ∷ (v0 ∷ (v1 ∷ (i0 ∷ (i1 ∷ (l0 ∷ (l1 ∷ rest)))))))) = some (record {
  request_type = t;
  request = r;
  value = v0 + v1 * 256;
  index = i0 + i1 * 256;
  length = l0 + l1 * 256;
})
request_in _ = none

-- What `dataptr` gives the caller: the null pointer, or a new block, which is never written: the
-- bytes behind the request are copied over the caller's pointer itself, of eight bytes.
pub data DataPointer : Type 0 where
  null : DataPointer
  block : ℕ → DataPointer
  overwritten : Bytes → DataPointer

unfoldable pub copied : Bytes → Result DataPointer
copied [] = ok (block 0)
copied (b ∷ body) = if leb (length (b ∷ body)) 8 then ok (overwritten (b ∷ body)) else fault

-- `none` is that there is no request; otherwise the request, its data and their number.
unfoldable pub control_request : Incoming → Result (Option (CtrlRequest × DataPointer × ℕ))
unfolding receive_data request_in copied
control_request incoming = receive_data incoming >>= λ bytes. elim bytes [
  | [] ↦ ok none
  | b ∷ rest ↦ elim (request_in (b ∷ rest)) [
    | none ↦ fault
    | some s ↦
        if has s.request_type 0x80 || s.length == 0
        then ok (some (s, null, 0))
        else (copied (drop 8 (b ∷ rest)) >>= λ p. ok (some (s, p, length (b ∷ rest) - 8)))
  ]
]

-- The messages of `send_data` for endpoint 0, `control_ack` and `stall_ep`.
unfoldable pub reply_message : Bytes → Bytes
reply_message bytes = 0 ∷ (length bytes / 256 % 256) ∷ (length bytes % 256) ∷ bytes

unfoldable pub ack_message : Bytes
ack_message = 0 ∷ 0 ∷ 0 ∷ []

unfoldable pub stall_message : Bytes
stall_message = 1 ∷ []

-- `send_data`, for any endpoint: the endpoint and the message that the helper sends.
unfoldable pub send_data : ℕ → Bytes → ℕ × Bytes
unfolding reply_message
send_data endpoint bytes = if endpoint == 0 then (0, reply_message bytes) else (endpoint, bytes)

unfoldable pub set_config :
    ℕ → (Bytes → Helper → Result (Helper × Code)) → Configuration → Helper → Result Helper
unfolding endpoints_of open_until
set_config fuel opener c h = do eps ← endpoints_of c; open_until fuel opener eps h
