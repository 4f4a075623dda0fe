-- ===== src/Tcp.antt =====
-- lib/TCP_Helper.cpp: the sockets of the TCP proxies, one for each endpoint and direction. The
-- results of the system calls are parameters; times, messages and the address are left out.
pub mod Closed
pub mod Open
pub mod Ports
pub mod Sockets
use usbproxy.Base.{
  fun_ext, ℕ, zero, suc, ◌+◌, ◌-◌, ◌*◌, ◌/◌, ◌%◌, ◌^◌, ◌≤◌, ◌<◌, min, max, ◌≡◌, refl, sym, ap, ap₂,
  subst, ◌∙◌, ◌≢◌, ◌↔◌, ◌⊎◌, inl, inr, Bool, true, false, ◌&&◌, ◌||◌, not, Option, none, some, List,
  [], ◌∷◌, ◌++◌, map, append-nil, append_assoc, arith, ltb, leb, ◌==◌, if◌then◌else◌, ltb→lt,
  lt→ltb, leb→le, le→leb, lt→leb, ==_iff, ==_refl, ==_ne, if-cases, below, below-holds, Bool-cases,
  Option-cases, length, get_elem?, get_or, set, take, drop, replicate, length-append, length-set,
  get_elem?-set_self, get_elem?-set_ne, get_elem?-none, get_elem?-some, get_elem?-append_left,
  get_elem?-append_right, get_elem?-inside, get_elem?-replicate, get_elem?-take, take-append_length,
  drop-append_length, take-append_left, take_all, length-take, length-drop, length-replicate, All,
  All-append, All-get_elem?, All-set, All-replicate, get_elem?-at, set-at, Bytes, u8, u16, has,
}
use Prim.Native.Nat.{bit_and, bit_or}
use usbproxy.Result.{Result, ok, fault, exits, spins, ◌>>=◌, at_index, put_index}

-- A descriptor is 0 where there is none. `buffers` says which are allocated.
pub record Helper : Type 0 where
  pub is_server : Bool
  pub is_connected : Bool
  pub listeners : List ℕ
  pub sockets : List ℕ
  pub connects : List Bool
  pub buffers : List Bool

-- `none` is the server.
unfoldable pub init : Bool → Helper
init is_server = record {
  is_server = is_server;
  is_connected = false;
  listeners = replicate 32 0;
  sockets = replicate 32 0;
  connects = replicate 32 false;
  buffers = replicate 32 false;
}

-- The return codes: 0, -1, ETIMEDOUT, or a number of endpoints that are still to be opened.
pub data Code : Type 0 where
  done failed timed_out : Code
  remaining : ℕ → Code

-- What `poll` says of one descriptor: nothing in time, or its events.
pub data Polled : Type 0 where
  expired : Polled
  events : ℕ → Polled

abbrev pub pollin : ℕ
pollin = 1

abbrev pub pollout : ℕ
pollout = 4

abbrev pub pollhup : ℕ
pollhup = 0x10

pub data Connecting : Type 0 where
  connected in_progress refused : Connecting

-- What the system says to one call of `client_connect`: the new socket, `none` for an error; what
-- becomes of the connection; and what `poll` says.
pub record Dial : Type 0 where
  pub socket : Option ℕ
  pub connecting : Connecting
  pub polled : Polled

-- The index of an endpoint in the arrays.
unfoldable pub port_of : ℕ → ℕ
port_of ep = if has ep 0x80 then bit_or (bit_and ep 0xf) 0x10 else ep

abbrev pub connect_at : Helper → ℕ → Bool → Result Helper
connect_at h port b = do
  connects ← put_index h.connects port b
  ok (record h { connects = connects })

abbrev pub socket_at : Helper → ℕ → ℕ → Result Helper
socket_at h port sock = do
  sockets ← put_index h.sockets port sock
  ok (record h { sockets = sockets })

-- The wait for a connection that is in progress.
unfoldable pub await : Helper → ℕ → Polled → Result (Helper × Code)
await h port expired = ok (h, timed_out)
await h port (events e) =
    if has e pollhup
    then (do h' ← socket_at h port 0; ok (h', timed_out))
    else if e == pollout
    then (do h' ← connect_at h port true; ok (h', done))
    else ok (h, failed)

unfoldable pub dial : Helper → ℕ → ℕ → Connecting → Polled → Result (Helper × Code)
unfolding await
dial h port sock connected p = do
  h1 ← socket_at h port sock
  h2 ← connect_at h1 port true
  ok (h2, done)
dial h port sock in_progress p = do
  h1 ← socket_at h port sock
  h2 ← connect_at h1 port false
  if sock == 0 then ok (h2, failed) else await h2 port p
dial h port sock refused p = ok (h, failed)

-- Where there is no socket: the one that the system gives.
unfoldable pub dial_new : Helper → ℕ → Dial → Option ℕ → Result (Helper × Code)
unfolding dial
dial_new h port w none = ok (h, failed)
dial_new h port w (some sock) = dial h port sock w.connecting w.polled

unfoldable pub client_connect : Helper → ℕ → Dial → Result (Helper × Code)
unfolding await dial_new
client_connect h port w = do
  made ← at_index h.connects port
  sock ← at_index h.sockets port
  if made && not (sock == 0)
      then ok (h, done)
      else if sock == 0
      then dial_new h port w w.socket
      else await h port w.polled

-- What the system says to `server_listen`: the socket, and whether `bind` and `listen` succeed.
pub record Offer : Type 0 where
  pub socket : ℕ
  pub is_bound : Bool
  pub is_listening : Bool

unfoldable pub server_listen : Helper → ℕ → Offer → Result Helper
server_listen h port w = do
  old ← at_index h.listeners port
  if not (old == 0) || not (w.is_bound && w.is_listening) then ok h else (do
    h' ← connect_at h port false
    listeners ← put_index h'.listeners port w.socket
    ok (record h' { listeners = listeners }))

-- `accepted` is what `accept` returns, `none` for an error.
unfoldable pub accept : Helper → ℕ → Option ℕ → Result (Helper × Code)
accept h port none = ok (h, failed)
accept h port (some sock) = do
  h1 ← socket_at h port sock
  h2 ← connect_at h1 port true
  ok (h2, done)

unfoldable pub server_connect : Helper → ℕ → Polled → Option ℕ → Result (Helper × Code)
unfolding accept
server_connect h port expired accepted = ok (h, timed_out)
server_connect h port (events e) accepted =
    if e == pollin then accept h port accepted else ok (h, timed_out)

-- `p_is_connected=rc==0`, and the buffer of endpoint 0.
unfoldable pub note_connected : Helper × Code → Result (Helper × Code)
note_connected (h, done) = do
  buffers ← put_index h.buffers 0 true
  ok (record h { is_connected = true; buffers = buffers }, done)
note_connected (h, failed) = ok (record h { is_connected = false }, failed)
note_connected (h, timed_out) = ok (record h { is_connected = false }, timed_out)
note_connected (h, remaining n) = ok (record h { is_connected = false }, remaining n)

unfoldable pub connect_server : Helper → Offer → Polled → Option ℕ → Result (Helper × Code)
unfolding server_listen server_connect
connect_server h w p accepted = do
  h' ← server_listen h 0 w
  listener ← at_index h'.listeners 0
  if listener == 0 then ok (h', timed_out) else server_connect h' 0 p accepted

unfoldable pub connect : Helper → Dial → Offer → Option ℕ → Result (Helper × Code)
unfolding note_connected connect_server client_connect
connect h w o accepted = do
  r ← if h.is_server then connect_server h o w.polled accepted else client_connect h 0 w
  note_connected r

-- What `disconnect` leaves of the arrays: `ep_connect` is as it was.
unfoldable pub disconnect : Helper → Helper
disconnect h = record h {
  listeners = map (λ _. 0) h.listeners;
  sockets = map (λ _. 0) h.sockets;
  buffers = map (λ _. false) h.buffers;
}

-- The descriptor that `send_data` writes to, and `receive_data` reads from.
unfoldable pub descriptor_of : Helper → ℕ → Result ℕ
unfolding port_of
descriptor_of h ep = at_index h.sockets (port_of ep)
