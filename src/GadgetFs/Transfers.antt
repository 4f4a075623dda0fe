-- ===== src/GadgetFs/Transfers.antt =====
-- Plugins/Hosts/HostProxy_GadgetFS.cpp: the transfers of the endpoints.
use usbproxy.Base.{
  ℕ, Bool, true, false, ◌||◌, not, Option, none, some, [], ◌∷◌, ◌==◌, if◌then◌else◌, length, Bytes,
  has,
}
use Prim.Native.Nat.{bit_and}
use usbproxy.Result.{Result, ok, ◌>>=◌, at_index}
use usbproxy.GadgetFs.{Gadget, Aio, write, log, set_in, set_out, set_active, close_ep}

-- What `aio_error` says of a transfer. `shutdown` is ESHUTDOWN.
pub data AioStatus : Type 0 where
  in_progress finished shutdown failed : AioStatus

-- What the system says to a wait: the status at first; whether the caller gave time; what
-- `aio_suspend` came to, `none` for nothing in time, and else the status after it; and whether
-- `aio_return` gave a number.
pub record Wait : Type 0 where
  pub first : AioStatus
  pub has_time : Bool
  pub suspended : Option AioStatus
  pub is_returned : Bool

-- The status that the code goes on with, `none` where the wait ended in vain.
unfoldable pub settled : Wait → Option AioStatus
settled w = elim w.first [
  | in_progress ↦ if w.has_time then w.suspended else some in_progress
  | s ↦ some s
]

-- What `aio_write` and `aio_read` come to.
pub data Submitted : Type 0 where
  accepted refused_by_shutdown refused : Submitted

-- The new transfer of an open IN endpoint.
unfoldable pub submit : Gadget → ℕ → Aio → Bytes → Submitted → Result Gadget
unfolding close_ep
submit g endpoint aio bytes outcome = do
  g1 ←
      set_in g (bit_and endpoint 0xf)
        (some (record aio { buffer = some bytes; nbytes = length bytes }))
  elim outcome [
    | accepted ↦ set_active g1 (bit_and endpoint 0xf) true
    | refused_by_shutdown ↦ close_ep g1 endpoint
    | refused ↦ ok g1
  ]

unfoldable pub send_data : Gadget → ℕ → Bytes → Submitted → Result Gadget
unfolding submit
send_data g endpoint bytes outcome =
    if endpoint == 0
    then ok (log g (write g.device_file bytes ∷ []))
    else if not (has endpoint 0x80)
    then ok g
    else (at_index g.in_async (bit_and endpoint 0xf) >>= λ slot. elim slot [
      | none ↦ ok g
      | some aio ↦ submit g endpoint aio bytes outcome
    ])

-- A transfer that has ended, with its status: the buffer is freed first. The result says whether
-- the endpoint is free again.
unfoldable pub complete : Gadget → ℕ → Aio → Wait → AioStatus → Result (Gadget × Bool)
unfolding close_ep
complete g endpoint aio w in_progress = ok (g, false)
complete g endpoint aio w finished = do
  g1 ← set_in g (bit_and endpoint 0xf) (some (record aio { buffer = none; nbytes = 0 }))
  if w.is_returned
      then (do g2 ← set_active g1 (bit_and endpoint 0xf) false; ok (g2, true))
      else ok (g1, false)
complete g endpoint aio w shutdown = do
  g1 ← set_in g (bit_and endpoint 0xf) (some (record aio { buffer = none; nbytes = 0 }))
  g2 ← close_ep g1 endpoint
  g3 ← set_active g2 (bit_and endpoint 0xf) false
  ok (g3, true)
complete g endpoint aio w failed = do
  g1 ← set_in g (bit_and endpoint 0xf) (some (record aio { buffer = none; nbytes = 0 }))
  g2 ← set_active g1 (bit_and endpoint 0xf) false
  ok (g2, true)

-- An open IN endpoint that is active.
unfoldable pub wait_on : Gadget → ℕ → Aio → Wait → Result (Gadget × Bool)
unfolding settled complete
wait_on g endpoint aio w = elim (settled w) [
  | none ↦ ok (g, false)
  | some s ↦ complete g endpoint aio w s
]

unfoldable pub send_wait_complete : Gadget → ℕ → Wait → Result (Gadget × Bool)
unfolding wait_on
send_wait_complete g endpoint w =
    if endpoint == 0
    then ok (g, true)
    else if not (has endpoint 0x80)
    then ok (g, false)
    else (at_index g.in_async (bit_and endpoint 0xf) >>= λ slot. elim slot [
      | none ↦ ok (g, false)
      | some aio ↦
          (at_index g.in_active (bit_and endpoint 0xf) >>= λ active.
          if not active then ok (g, true) else wait_on g endpoint aio w)
    ])

-- The bytes that have come for an open OUT endpoint, and the next read. Where it is refused, the
-- transfer is dropped, with its descriptor still open.
unfoldable pub collect : Gadget → ℕ → Wait → Bytes → Submitted → Result (Gadget × Option Bytes)
collect g endpoint w bytes outcome = if not w.is_returned then ok (g, none) else elim outcome [
  | accepted ↦ ok (g, some bytes)
  | _ ↦ (do g' ← set_out g (bit_and endpoint 0xf) none; ok (g', some bytes))
]

-- An open OUT endpoint. After an error other than ESHUTDOWN no new read is submitted.
unfoldable pub receive_on :
    Gadget → ℕ → Wait → Bytes → Submitted → Option AioStatus → Result (Gadget × Option Bytes)
unfolding collect close_ep
receive_on g endpoint w bytes outcome none = ok (g, none)
receive_on g endpoint w bytes outcome (some in_progress) = ok (g, none)
receive_on g endpoint w bytes outcome (some finished) = collect g endpoint w bytes outcome
receive_on g endpoint w bytes outcome (some shutdown) = do g' ← close_ep g endpoint; ok (g', none)
receive_on g endpoint w bytes outcome (some failed) = ok (g, none)

-- `bytes` is what the transfer has put into the buffer.
unfoldable pub receive_data : Gadget → ℕ → Wait → Bytes → Submitted → Result (Gadget × Option Bytes)
unfolding receive_on settled
receive_data g endpoint w bytes outcome =
    if endpoint == 0 || has endpoint 0x80
    then ok (g, none)
    else (at_index g.out_async (bit_and endpoint 0xf) >>= λ slot. elim slot [
      | none ↦ ok (g, none)
      | some aio ↦ receive_on g endpoint w bytes outcome (settled w)
    ])
