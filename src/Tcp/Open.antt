-- ===== src/Tcp/Open.antt =====
-- `open_endpoints` of lib/TCP_Helper.cpp.
use usbproxy.Base.{
  ℕ, ◌+◌, ◌-◌, true, ◌&&◌, not, Option, none, some, List, [], ◌∷◌, ◌==◌, if◌then◌else◌, has,
}
use usbproxy.Result.{Result, ok, ◌>>=◌, at_index, put_index}
use usbproxy.Tcp.{
  Helper, Code, done, timed_out, remaining, Polled, pollin, pollout, pollhup, Dial, Offer, port_of,
  client_connect, server_listen, server_connect, socket_at,
}

-- The first loop of the client: for each endpoint what the system says if it is dialled. It counts
-- the endpoints that are not connected.
unfoldable pub dial_all : List (ℕ × Dial) → Helper → Result (Helper × ℕ)
unfolding client_connect port_of
dial_all [] h = ok (h, 0)
dial_all ((ep, w) ∷ eps) h = do
  made ← at_index h.connects (port_of ep)
  sock ← at_index h.sockets (port_of ep)
  h' ← if not made && sock == 0 then (do r ← client_connect h (port_of ep) w; ok r.0) else ok h
  now ← at_index h'.connects (port_of ep)
  rest ← dial_all eps h'
  ok (rest.0, (if now then 0 else 1) + rest.1)

-- The second loop: the indices of the endpoints that are not connected.
unfoldable pub pending : List (ℕ × Dial) → Helper → Result (List ℕ)
unfolding port_of
pending [] h = ok []
pending ((ep, w) ∷ eps) h = do
  made ← at_index h.connects (port_of ep)
  rest ← pending eps h
  ok (if made then rest else port_of ep ∷ rest)

-- One round of the loop over the results of `poll`, with what the system says if the connection
-- is taken up, and the number of endpoints that are left.
unfoldable pub take_up : Helper → ℕ → ℕ → Dial → ℕ → Result (Helper × ℕ)
unfolding client_connect
take_up h port e w left = do
  h1 ← if has e pollhup then socket_at h port 0 else ok h
  if e == pollout
      then (do
        r ← client_connect h1 port w
        elim r.1 [
          | done ↦ (do
            buffers ← put_index r.0.buffers port true
            ok (record r.0 { buffers = buffers }, left - 1))
          | _ ↦ ok (r.0, left)
        ])
      else ok (h1, left)

unfoldable pub take_up_all : List (ℕ × ℕ × Dial) → Helper → ℕ → Result (Helper × ℕ)
unfolding take_up
take_up_all [] h left = ok (h, left)
take_up_all ((port, e, w) ∷ results) h left = do
  r ← take_up h port e w left
  take_up_all results r.0 r.1

-- The entries that `poll` has looked at: a port, its events and a dial for each. `none` is that no
-- entry had any in time.
abbrev pub joined : List ℕ → List (ℕ × Dial) → List (ℕ × ℕ × Dial)
joined [] results = []
joined (port ∷ ports) [] = []
joined (port ∷ ports) ((e, w) ∷ results) = (port, e, w) ∷ joined ports results

unfoldable pub client_open_endpoints :
    List (ℕ × Dial) → Option (List (ℕ × Dial)) → Helper → Result (Helper × Code)
unfolding dial_all pending take_up_all
client_open_endpoints eps polled h = do
  d ← dial_all eps h
  if d.1 == 0 then ok (d.0, done) else (do
    ports ← pending eps d.0
    elim polled [
      | none ↦ ok (d.0, timed_out)
      | some results ↦ (do
        r ← take_up_all (joined ports results) d.0 d.1
        ok (r.0, if r.1 == 0 then done else remaining r.1))
    ])

-- The loops of the server.
unfoldable pub listen_all : List (ℕ × Offer) → Helper → Result (Helper × ℕ)
unfolding server_listen port_of
listen_all [] h = ok (h, 0)
listen_all ((ep, w) ∷ eps) h = do
  made ← at_index h.connects (port_of ep)
  listener ← at_index h.listeners (port_of ep)
  h' ← if not made && listener == 0 then server_listen h (port_of ep) w else ok h
  rest ← listen_all eps h'
  ok (rest.0, (if made then 0 else 1) + rest.1)

unfoldable pub waiting : List (ℕ × Offer) → Helper → Result (List ℕ)
unfolding port_of
waiting [] h = ok []
waiting ((ep, w) ∷ eps) h = do
  made ← at_index h.connects (port_of ep)
  rest ← waiting eps h
  ok (if made then rest else port_of ep ∷ rest)

-- The events of each entry, what `poll` says to `server_connect`, and what is accepted.
unfoldable pub accept_all : List ℕ → List (ℕ × Polled × Option ℕ) → Helper → ℕ → Result (Helper × ℕ)
unfolding server_connect
accept_all [] results h left = ok (h, left)
accept_all (port ∷ ports) [] h left = ok (h, left)
accept_all (port ∷ ports) ((e, p, accepted) ∷ results) h left =
    if e == pollin
    then (server_connect h port p accepted >>= λ r. elim r.1 [
      | done ↦
          (put_index r.0.buffers port true >>= λ buffers.
          accept_all ports results (record r.0 { buffers = buffers }) (left - 1))
      | _ ↦ accept_all ports results r.0 left
    ])
    else accept_all ports results h left

unfoldable pub server_open_endpoints :
    List (ℕ × Offer) → Option (List (ℕ × Polled × Option ℕ)) → Helper → Result (Helper × Code)
unfolding listen_all waiting accept_all
server_open_endpoints eps polled h = do
  d ← listen_all eps h
  ports ← waiting eps d.0
  elim polled [
    | none ↦ ok (d.0, timed_out)
    | some results ↦ (do
      r ← accept_all ports results d.0 d.1
      ok (r.0, if r.1 == 0 then done else remaining r.1))
  ]
