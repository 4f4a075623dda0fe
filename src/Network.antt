-- ===== src/Network.antt =====
-- What goes over a connection between two machines: send_data and receive_data of
-- lib/TCP_Helper.cpp, and the endpoints that both proxies open.
pub mod Device
pub mod Exchange
pub mod Host
use usbproxy.Base.{
  fun_ext, ℕ, zero, suc, ◌+◌, ◌-◌, ◌*◌, ◌/◌, ◌%◌, ◌^◌, ◌≤◌, ◌<◌, min, max, ◌≡◌, refl, sym, ap, ap₂,
  subst, ◌∙◌, ◌≢◌, ◌↔◌, ◌⊎◌, inl, inr, Bool, true, false, ◌&&◌, ◌||◌, not, Option, none, some, List,
  [], ◌∷◌, ◌++◌, map, append-nil, append_assoc, arith, ltb, leb, ◌==◌, if◌then◌else◌, ltb→lt,
  lt→ltb, leb→le, le→leb, lt→leb, ==_iff, ==_refl, ==_ne, if-cases, below, below-holds, Bool-cases,
  Option-cases, length, get_elem?, get_or, set, take, drop, replicate, length-append, length-set,
  get_elem?-set_self, get_elem?-set_ne, get_elem?-none, get_elem?-some, get_elem?-append_left,
  get_elem?-append_right, get_elem?-inside, get_elem?-replicate, get_elem?-take, take-append_length,
  drop-append_length, take-append_left, take_all, length-take, length-drop, length-replicate, All,
  All-append, All-get_elem?, All-set, All-replicate, get_elem?-at, set-at, Bytes, u8, u16, has,
}
use usbproxy.Result.{Result, ok, fault, spins, ◌>>=◌, deref}
use usbproxy.Descriptors.Endpoint.{byte, endpoint_address}
use usbproxy.Descriptors.Interface.{Interface, num_endpoints}
use usbproxy.Descriptors.Interface.Access.{get_endpoint_by_idx}
use usbproxy.Descriptors.Configuration.{Configuration}
use usbproxy.Descriptors.Configuration.Access.{get_interface}
use usbproxy.Tcp.{Helper, Code, done, failed, timed_out, remaining}

abbrev pub tcp_buffer_size : ℕ
tcp_buffer_size = 1456

-- What the system says to `receive_data`: nothing in time, an error of `read`, or the bytes that
-- are there.
pub data Incoming : Type 0 where
  nothing broken : Incoming
  arrived : Bytes → Incoming

-- `receive_data` where the caller's length is 0 and its pointer null. After an error the length is
-- -1 and the pointer null, and both callers read through it.
unfoldable pub receive_data : Incoming → Result Bytes
receive_data nothing = ok []
receive_data broken = fault
receive_data (arrived bytes) = ok (take tcp_buffer_size bytes)

-- The addresses of the endpoints of an interface, for the next `n` of them.
unfoldable pub addresses : ℕ → ℕ → Interface → Result Bytes
addresses zero index i = ok []
addresses (suc n) index i = do
  slot ← get_endpoint_by_idx i index
  e ← deref slot
  rest ← addresses n (suc index) i
  ok (endpoint_address e ∷ rest)

-- The active interfaces of a configuration, for the next `n` of them.
unfoldable pub interface_addresses : ℕ → ℕ → Configuration → Result Bytes
unfolding addresses
interface_addresses zero number c = ok []
interface_addresses (suc n) number c = do
  slot ← get_interface c number
  i ← deref slot
  here ← addresses (num_endpoints i) 0 i
  rest ← interface_addresses n (suc number) c
  ok (here ++ rest)

-- The array of addresses. Its size is counted in a `__u8`, so 256 endpoints and more are written
-- behind its end.
unfoldable pub endpoints_of : Configuration → Result Bytes
unfolding interface_addresses
endpoints_of c = do
  eps ← interface_addresses (byte c.descriptor 4) 0 c
  if ltb (u8 (length eps)) (length eps) then fault else ok eps

-- The loop `while (rc>0)` over `open_endpoints`, with the helper that each call leaves. `failed`
-- is -1, ETIMEDOUT and a number of endpoints that are left are positive.
unfoldable pub open_until :
    ℕ → (Bytes → Helper → Result (Helper × Code)) → Bytes → Helper → Result Helper
open_until zero opener eps h = spins
open_until (suc fuel) opener eps h = opener eps h >>= λ r.
    let again = open_until fuel opener eps r.0 in
    elim r.1 [
      | done ↦ ok r.0
      | failed ↦ ok r.0
      | timed_out ↦ again
      | remaining n ↦ if n == 0 then ok r.0 else again
    ]
