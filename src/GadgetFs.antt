-- ===== src/GadgetFs.antt =====
-- Plugins/Hosts/HostProxy_GadgetFS.cpp: the host proxy over the files of GadgetFS, with its
-- asynchronous transfers. What the system calls answer is input. The lock of closeEP and the
-- waiting times are left out.
pub mod Closing
pub mod Control
pub mod Transfers
pub mod Active
pub mod Keeping
pub mod Sequences
pub mod Descriptor
pub mod Generated
pub mod Setup
pub mod Slots
use usbproxy.Base.{
  fun_ext, ℕ, zero, suc, ◌+◌, ◌-◌, ◌*◌, ◌/◌, ◌%◌, ◌^◌, ◌≤◌, ◌<◌, min, max, ◌≡◌, refl, sym, ap, ap₂,
  subst, ◌∙◌, ◌≢◌, ◌↔◌, ◌⊎◌, inl, inr, Bool, true, false, ◌&&◌, ◌||◌, not, Option, none, some, List,
  [], ◌∷◌, ◌++◌, map, append-nil, append_assoc, arith, ltb, leb, ◌==◌, if◌then◌else◌, ltb→lt,
  lt→ltb, leb→le, le→leb, lt→leb, ==_iff, ==_refl, ==_ne, both_true, not-true, if-cases, below,
  below-holds, Bool-cases, Option-cases, length, get_elem?, get_or, set, take, drop, replicate,
  length-append, length-set, get_elem?-set_self, get_elem?-set_ne, get_elem?-none, get_elem?-some,
  get_elem?-append_left, get_elem?-append_right, get_elem?-inside, get_elem?-replicate,
  get_elem?-take, take-append_length, drop-append_length, take-append_left, take_all, length-take,
  length-drop, length-replicate, All, All-append, All-get_elem?, All-set, All-replicate,
  get_elem?-at, set-at, Bytes, u8, u16, has,
}
use usbproxy.Result.{Result, ok, ◌>>=◌, deref, at_index, put_index}
use Prim.Native.Nat.{bit_and}
use usbproxy.Packet.{CtrlRequest}

-- `aiocb`: the descriptor, 0 for none, and the buffer of the transfer with its length.
pub record Aio : Type 0 where
  pub fildes : ℕ
  pub buffer : Option Bytes
  pub nbytes : ℕ

-- What is done to the files, in order: they are closed, or written and read by the number of the
-- descriptor. `mount` and `unmount` are those of the gadget file system.
pub data Call : Type 0 where
  close : ℕ → Call
  cancel : ℕ → Call
  write : ℕ → Bytes → Call
  read : ℕ → ℕ → Call
  mount unmount : Call

-- The arrays have 16 entries; `none` is the null pointer. `device_file` is 0 where it is closed.
pub record Gadget : Type 0 where
  pub is_connected : Bool
  pub device_file : ℕ
  pub in_async : List (Option Aio)
  pub in_active : List Bool
  pub out_async : List (Option Aio)
  pub descriptor : Option Bytes
  pub last_control : CtrlRequest
  pub calls : List Call

-- The constructor. Of the last request it sets one field; what the others held is a parameter.
unfoldable pub init : CtrlRequest → Gadget
init held = record {
  is_connected = false;
  device_file = 0;
  in_async = replicate 16 none;
  in_active = replicate 16 false;
  out_async = replicate 16 none;
  descriptor = none;
  last_control = record held { request = 0 };
  calls = mount ∷ [];
}

abbrev pub log : Gadget → List Call → Gadget
log g calls = record g { calls = g.calls ++ calls }

-- The slot of an endpoint, read and set.
abbrev pub slot_of : Gadget → ℕ → ℕ → Result (Option Aio)
slot_of g endpoint n = if has endpoint 0x80 then at_index g.in_async n else at_index g.out_async n

abbrev pub set_in : Gadget → ℕ → Option Aio → Result Gadget
set_in g n aio = do slots ← put_index g.in_async n aio; ok (record g { in_async = slots })

abbrev pub set_out : Gadget → ℕ → Option Aio → Result Gadget
set_out g n aio = do slots ← put_index g.out_async n aio; ok (record g { out_async = slots })

abbrev pub set_active : Gadget → ℕ → Bool → Result Gadget
set_active g n b = do active ← put_index g.in_active n b; ok (record g { in_active = active })

-- `cancelAio`, which takes its own index; what it returns is not used.
unfoldable pub cancel_aio : Gadget → ℕ → Result Gadget
cancel_aio g endpoint = do
  slot ← slot_of g endpoint (if has endpoint 0x80 then bit_and endpoint 0x7f else endpoint)
  aio ← deref slot
  ok (log g (cancel aio.fildes ∷ []))

-- The rest of `closeEP`, for an endpoint that is open.
unfoldable pub close_slot : Gadget → ℕ → ℕ → Aio → Result Gadget
unfolding cancel_aio
close_slot g endpoint n aio = do
  g1 ← if has endpoint 0x80 then set_active g n false else ok g
  g2 ← cancel_aio g1 endpoint
  g3 ← if has endpoint 0x80 then set_in g2 n none else set_out g2 n none
  ok (if aio.fildes == 0 then g3 else log g3 (close aio.fildes ∷ []))

unfoldable pub close_ep : Gadget → ℕ → Result Gadget
unfolding close_slot
close_ep g endpoint = slot_of g endpoint (bit_and endpoint 0xf) >>= λ slot. elim slot [
  | none ↦ ok g
  | some aio ↦ close_slot g endpoint (bit_and endpoint 0xf) aio
]

-- The body of the loop of `disconnectEps`.
unfoldable pub disconnect_at : Gadget → ℕ → Result Gadget
unfolding close_ep
disconnect_at g i = do
  inward ← at_index g.in_async i
  g1 ← elim inward [ none ↦ ok g | some _ ↦ close_ep g (i + 0x80) ]
  outward ← at_index g1.out_async i
  elim outward [ none ↦ ok g1 | some _ ↦ close_ep g1 i ]

-- The next `n` indices.
unfoldable pub disconnect_from : ℕ → ℕ → Gadget → Result Gadget
unfolding disconnect_at
disconnect_from zero i g = ok g
disconnect_from (suc n) i g = do g' ← disconnect_at g i; disconnect_from n (suc i) g'

unfoldable pub disconnect_eps : Gadget → Result Gadget
unfolding disconnect_from
disconnect_eps g = disconnect_from 16 0 g

-- The device file is closed where it is open.
abbrev pub close_file : Gadget → Gadget
close_file g =
    if g.device_file == 0
    then g
    else record g { device_file = 0; calls = g.calls ++ (close g.device_file ∷ []) }

unfoldable pub disconnect : Gadget → Result Gadget
unfolding disconnect_eps
disconnect g = if not g.is_connected then ok g else (do
  g' ← disconnect_eps (close_file g)
  ok (record g' { is_connected = false; calls = g'.calls ++ (unmount ∷ []) }))
