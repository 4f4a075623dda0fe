-- ===== src/GadgetFs/Control.antt =====
-- Plugins/Hosts/HostProxy_GadgetFS.cpp: the connection, and the control endpoint.
use usbproxy.Base.{
  ℕ, Bool, true, false, ◌&&◌, not, Option, none, some, [], ◌∷◌, ◌==◌, if◌then◌else◌, Bytes, has,
}
use usbproxy.Result.{Result, ok, ◌>>=◌}
use usbproxy.Packet.{CtrlRequest}
use usbproxy.Relay.Reader.{HostEvent, got_setup, disconnected, connected, timed_out}
use usbproxy.GadgetFs.{Gadget, write, read, close, log, disconnect}

-- What the system says to `open_gadget`, `none` for an error, and whether the write succeeds.
pub record Opening : Type 0 where
  pub file : Option ℕ
  pub is_written : Bool

-- The device file is opened and given the descriptors. The result is true for success. A failed
-- `open` leaves a negative number; it is never closed, and is 0 here.
unfoldable pub open_file : Gadget → Bytes → Opening → Gadget × Bool
open_file g bytes w = elim w.file [
  | none ↦ (record g { device_file = 0 }, false)
  | some file ↦
      if w.is_written
      then (
        log (record g { device_file = file; is_connected = true }) (write file bytes ∷ []),
        true,
      )
      else (log (record g { device_file = 0 }) (close file ∷ []), false)
]

-- `connect`, with the descriptors that `generate_descriptor` makes.
unfoldable pub connect : Gadget → Bytes → Opening → Gadget × Bool
unfolding open_file
connect g bytes w =
    if g.is_connected then (g, true) else open_file (record g { descriptor = some bytes }) bytes w

unfoldable pub reconnect : Gadget → Opening → Gadget × Bool
unfolding open_file
reconnect g w =
    if g.is_connected
    then (g, true)
    else elim g.descriptor [ none ↦ (g, false) | some bytes ↦ open_file g bytes w ]

unfoldable pub reset : Gadget → Opening → Result Gadget
unfolding disconnect reconnect
reset g w = do g' ← disconnect g; ok (reconnect g' w).0

-- The event that a read of the device file gives. `other` stands for NOP, SUSPEND and the rest.
pub data Event : Type 0 where
  setup : CtrlRequest → Event
  connects disconnects other : Event

-- `control_request`: `none` is that there is no event, or an error; `bytes` is what is read for a
-- request with data.
unfoldable pub control_request : Gadget → Option Event → Bytes → Gadget × HostEvent
control_request g none bytes = (g, timed_out)
control_request g (some (setup s)) bytes =
    if not (has s.request_type 0x80) && not (s.length == 0)
    then (
      log (record g { last_control = s }) (read g.device_file s.length ∷ []),
      got_setup s (some bytes),
    )
    else (record g { last_control = s }, got_setup s none)
control_request g (some connects) bytes = (g, connected)
control_request g (some disconnects) bytes = (g, disconnected)
control_request g (some other) bytes = (g, timed_out)

-- The status of the last control request: a write ends a transfer to the host, a read one from it.
unfoldable pub control_ack : Gadget → Gadget
control_ack g = log g (
    (if has g.last_control.request_type 0x80 then write g.device_file [] else read g.device_file 0)
    ∷ [])

-- A stall is the other way round.
unfoldable pub stall_ep : Gadget → ℕ → Gadget
stall_ep g endpoint =
    if not (endpoint == 0)
    then g
    else log g (
        (if has g.last_control.request_type 0x80
          then read g.device_file 0
          else write g.device_file [])
        ∷ [])
