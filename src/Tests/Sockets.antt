-- ===== src/Tests/Sockets.antt =====
-- lib/TCP_Helper.cpp on small inputs.
use usbproxy.Base.{
  ◌≡◌, refl, inl, inr, true, false, none, some, [], ◌∷◌, arith, ltb, ltb→lt, Bool-cases, set,
  replicate, get_elem?-none, get_elem?-replicate, length-replicate,
}
use usbproxy.Result.{ok}
use usbproxy.Tcp
use usbproxy.Tcp.{
  Helper, Code, done, Polled, expired, events, Connecting, in_progress, Dial, port_of,
  client_connect, disconnect, descriptor_of,
}
use usbproxy.Tcp.Open.{client_open_endpoints}
use usbproxy.Tcp.Sockets.{HasSockets, Dialled, client_connect-Dialled}
use usbproxy.Tcp.Closed.{client_open_endpoints-disconnect}

abbrev call : Dial
call = record { socket = some 7; connecting = in_progress; polled = events 4 }

init-HasSockets : HasSockets (Tcp.init false)
unfolding HasSockets Tcp.init
init-HasSockets p s c k = elim (Bool-cases (ltb p 32)) [
  | inl inside ↦ let idle = get_elem?-replicate 32 p false (ltb→lt p 32 inside) in cc
  | inr out ↦
      let gone =
        get_elem?-none (replicate 32 false) p (ground (arith, out, length-replicate 32 false)) in
      cc
]

abbrev opened : Helper
opened = record (Tcp.init false) {
  sockets = set (replicate 32 0) 2 7;
  connects = set (replicate 32 false) 2 true;
}

client_connect-Dialled_example : Dialled 2 opened done
unfolding client_connect Tcp.init
client_connect-Dialled_example =
    client_connect-Dialled (Tcp.init false) opened 2 call done init-HasSockets (λ e. cc) refl

client_open_endpoints-disconnect_example :
    (client_open_endpoints ((2, call) ∷ []) none (disconnect opened) ≡ ok (disconnect opened, done))
    × (descriptor_of (disconnect opened) 2 ≡ ok 0)
unfolding port_of Tcp.init
client_open_endpoints-disconnect_example =
    client_open_endpoints-disconnect opened ((2, call) ∷ []) none 0 2 call ((refl, omega arith), tt)
      refl
