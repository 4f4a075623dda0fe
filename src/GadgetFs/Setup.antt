-- ===== src/GadgetFs/Setup.antt =====
-- Plugins/Hosts/HostProxy_GadgetFS.cpp: setConfig, which opens the files of the endpoints.
use usbproxy.Base.{
  ℕ, zero, suc, ◌+◌, ◌*◌, Bool, true, false, Option, none, some, List, [], ◌∷◌, ◌++◌, ltb,
  if◌then◌else◌, length, Bytes, has,
}
use Prim.Native.Nat.{bit_and}
use usbproxy.Result.{Result, ok, fault, ◌>>=◌, deref, read_bytes}
use usbproxy.Descriptors.Endpoint.{Endpoint, byte, endpoint_address}
use usbproxy.Descriptors.Interface.{Interface, num_endpoints}
use usbproxy.Descriptors.Interface.Access.{get_endpoint_by_idx}
use usbproxy.Descriptors.Configuration.{Configuration}
use usbproxy.Descriptors.Configuration.Access.{
  get_interface_alternate, get_interface_alternate_count,
}
use usbproxy.GadgetFs.{Gadget, write, log, set_in, set_out}
use usbproxy.GadgetFs.Transfers.{Submitted, accepted}

-- What the system says to one endpoint: the new descriptor, `none` for an error, and what becomes
-- of the first read.
pub record Opened : Type 0 where
  pub fd : Option ℕ
  pub reading : Submitted

-- The loops with what the system has still to say. `is_done` is that the method has returned.
pub record Setup : Type 0 where
  pub gadget : Gadget
  pub answers : List Opened
  pub is_done : Bool

-- The tag and the descriptors at full and at high speed. The size is a `__u8`.
unfoldable pub configuration_bytes : Endpoint → Endpoint → Result Bytes
configuration_bytes full high = do
  first ← read_bytes (byte full.descriptor 0) full.descriptor
  second ← read_bytes (byte high.descriptor 0) high.descriptor
  if ltb 255 (4 + (length first + length second))
      then fault
      else ok ((1 ∷ 0 ∷ 0 ∷ 0 ∷ []) ++ (first ++ second))

abbrev pub max_packet_size : Endpoint → ℕ
max_packet_size e = byte e.descriptor 4 + byte e.descriptor 5 * 256

-- The slot of an endpoint that is open. An OUT endpoint is kept only if its first read is accepted;
-- otherwise its descriptor stays open.
unfoldable pub keep : Gadget → Bool → Endpoint → Endpoint → ℕ → Submitted → Result Gadget
keep g hs full high fd reading =
    let address = endpoint_address full in
    if has address 0x80
    then set_in g (bit_and address 0xf) (some (record { fildes = fd; buffer = none; nbytes = 0 }))
    else elim reading [
      | accepted ↦ set_out g (bit_and address 0xf) (
          some (record {
            fildes = fd;
            buffer = some [];
            nbytes = if hs then max_packet_size high else max_packet_size full;
          }))
      | _ ↦ ok g
    ]

-- An endpoint, with the descriptor that is opened for it.
unfoldable pub open_endpoint :
    Setup → Bool → Endpoint → Endpoint → Bytes → Option Opened → Result Setup
unfolding keep
open_endpoint t hs full high bytes none = ok (record t { is_done = true })
open_endpoint t hs full high bytes (some o) = elim o.fd [
  | none ↦ ok (record t { is_done = true })
  | some fd ↦ (do
    g ← keep (log t.gadget (write fd bytes ∷ [])) hs full high fd o.reading
    ok (record t { gadget = g }))
]

-- The next answer is used up. Where there is none, the endpoint cannot be opened.
unfoldable pub next_answer : Setup → Option Opened × Setup
next_answer t = elim t.answers [ [] ↦ (none, t) | o ∷ os ↦ (some o, record t { answers = os }) ]

-- The body of the innermost loop.
unfoldable pub add_endpoint : Setup → Bool → Interface → Interface → ℕ → Result Setup
unfolding configuration_bytes open_endpoint next_answer
add_endpoint t hs full high idx = do
  slot ← get_endpoint_by_idx full idx
  e ← deref slot
  other ← get_endpoint_by_idx high idx
  let h : Endpoint = elim other [ none ↦ e | some x ↦ x ]
  bytes ← configuration_bytes e h
  let next = next_answer t
  open_endpoint next.1 hs e h bytes next.0

-- The endpoints of an interface, for the next `n` of them.
unfoldable pub add_endpoints : ℕ → ℕ → Bool → Interface → Interface → Setup → Result Setup
unfolding add_endpoint
add_endpoints zero idx hs full high t = ok t
add_endpoints (suc n) idx hs full high t =
    if t.is_done
    then ok t
    else (do t' ← add_endpoint t hs full high idx; add_endpoints n (suc idx) hs full high t')

-- The interface at the other speed. It is looked up by the alternate setting in place of the
-- number of the interface.
unfoldable pub other_speed : Option Configuration → Interface → ℕ → Result Interface
other_speed none full alternate = ok full
other_speed (some c) full alternate = do
  slot ← get_interface_alternate c alternate alternate
  ok (elim slot [ none ↦ full | some i ↦ i ])

-- The alternate settings of an interface, for the next `n` of them.
unfoldable pub add_alternates :
    ℕ → ℕ → ℕ → Bool → Configuration → Option Configuration → Setup → Result Setup
unfolding add_endpoints other_speed
add_alternates zero number alternate hs c other t = ok t
add_alternates (suc n) number alternate hs c other t = if t.is_done then ok t else (do
  slot ← get_interface_alternate c number alternate
  full ← deref slot
  high ← other_speed other full alternate
  t' ← add_endpoints (num_endpoints full) 0 hs full high t
  add_alternates n number (suc alternate) hs c other t')

-- The interfaces, for the next `n` of them.
unfoldable pub add_interfaces :
    ℕ → ℕ → Bool → Configuration → Option Configuration → Setup → Result Setup
unfolding add_alternates
add_interfaces zero number hs c other t = ok t
add_interfaces (suc n) number hs c other t = if t.is_done then ok t else (do
  count ← get_interface_alternate_count c number
  t' ← add_alternates count number 0 hs c other t
  add_interfaces n (suc number) hs c other t')

unfoldable pub set_config :
    Configuration → Option Configuration → Bool → List Opened → Gadget → Result Gadget
unfolding add_interfaces
set_config c other hs answers g = do
  t ←
      add_interfaces (byte c.descriptor 4) 0 hs c other
        (record { gadget = g; answers = answers; is_done = false })
  ok t.gadget
