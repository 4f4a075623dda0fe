-- ===== src/Tests/Gadgets.antt =====
-- Plugins/Hosts/HostProxy_GadgetFS.cpp on small inputs.
use usbproxy.Base.{
  ℕ, zero, suc, ◌≡◌, refl, ap, inl, inr, true, false, none, some, List, [], ◌∷◌, ◌++◌, arith, ltb,
  ltb→lt, Bool-cases, length, get_elem?, replicate, get_elem?-none, get_elem?-replicate,
  length-replicate, Bytes,
}
use usbproxy.Result.{ok}
use usbproxy.Packet.{CtrlRequest}
use usbproxy.GadgetFs.{Gadget, cancel, close, mount, unmount, disconnect}
use usbproxy.GadgetFs.Closing.{disconnect-closings}
use usbproxy.GadgetFs.Active.{IsSound}
use usbproxy.GadgetFs.Transfers.{Wait, finished, accepted}
use usbproxy.GadgetFs.Sequences.{Transfer, sends, waits, receives, run, run-IsSound}
use usbproxy.Descriptors.Endpoint
use usbproxy.Tests.Mouse.{config}
use usbproxy.Device.{Device}
use usbproxy.Device.Load
use usbproxy.Descriptors.Interface
use usbproxy.Descriptors.Group
use usbproxy.Descriptors.Configuration.Access

abbrev held : CtrlRequest
held = record { request_type = 0; request = 0; value = 0; index = 0; length = 0 }

-- Endpoint 0x81 is open as descriptor 5, with a transfer on its way; endpoint 0x02 as descriptor 6.
abbrev gadget : Gadget
gadget = record {
  is_connected = true;
  device_file = 3;
  in_async =
      none ∷ some (record { fildes = 5; buffer = some (7 ∷ []); nbytes = 1 }) ∷ replicate 14 none;
  in_active = false ∷ true ∷ replicate 14 false;
  out_async =
      none ∷ none ∷ some (record { fildes = 6; buffer = some []; nbytes = 64 }) ∷ replicate 13 none;
  descriptor = none;
  last_control = held;
  calls = mount ∷ [];
}

disconnect-closings_example :
    disconnect gadget
    ≡ ok (record gadget {
      is_connected = false;
      device_file = 0;
      in_async = replicate 16 none;
      out_async = replicate 16 none;
      in_active = replicate 16 false;
      calls = mount ∷ close 3 ∷ cancel 5 ∷ close 5 ∷ cancel 6 ∷ close 6 ∷ unmount ∷ [];
    })
disconnect-closings_example =
    disconnect-closings gadget (record { ins = refl; outs = refl; active = refl }) refl

only_active : (k : ℕ) → get_elem? gadget.in_active k ≡ some true → k ≡ 1
only_active zero h = absurd (cc h)
only_active (suc zero) h = refl
only_active (suc (suc k)) h = elim (Bool-cases (ltb k 14)) [
  | inl inside ↦
      let idle = get_elem?-replicate 14 k false (ltb→lt k 14 inside) in absurd (cc (h, idle))
  | inr out ↦
      let gone =
        get_elem?-none (replicate 14 false) k (ground (arith, out, length-replicate 14 false)) in
      absurd (cc (h, gone))
]

gadget-IsSound : IsSound gadget
gadget-IsSound = record {
  ins = refl;
  outs = refl;
  active = refl;
  opened = λ k on. (
    record { fildes = 5; buffer = some (7 ∷ []); nbytes = 1 },
    ap (get_elem? gadget.in_async) (only_active k on),
  );
}

abbrev done : Wait
done = record { first = finished; has_time = true; suspended = none; is_returned = true }

abbrev calls : List Transfer
calls = waits 1 done ∷ sends 1 (8 ∷ 9 ∷ []) accepted ∷ receives 2 done (1 ∷ []) accepted ∷ []

run-IsSound_example : (g : Gadget) × (run gadget calls ≡ ok g) × IsSound g
run-IsSound_example =
    run-IsSound gadget calls gadget-IsSound (omega arith, (omega arith, (omega arith, tt)))

-- A device at full speed with the mouse's configuration, and no qualifier.
abbrev device_bytes : Bytes
device_bytes = 18 ∷ 1 ∷ 0 ∷ 2 ∷ 0 ∷ 0 ∷ 0 ∷ 8 ∷ 1 ∷ 0 ∷ 2 ∷ 0 ∷ 0 ∷ 1 ∷ 0 ∷ 0 ∷ 0 ∷ 1 ∷ []

abbrev mouse_device : Device
mouse_device = record (Load.from_descriptor device_bytes) { configurations = some config ∷ [] }

abbrev for_gadget : ℕ → Bytes
for_gadget interval =
    9 ∷ 2 ∷ 25 ∷ 0 ∷ 1 ∷ 1 ∷ 0 ∷ 0x80 ∷ 50 ∷ 9 ∷ 4 ∷ 0 ∷ 0 ∷ 1 ∷ 3 ∷ 1 ∷ 2 ∷ 0 ∷ 7 ∷ 5 ∷ 0x81 ∷ 3
    ∷ 4 ∷ 0 ∷ interval ∷ []

abbrev generated : Bytes
generated = (0 ∷ 0 ∷ 0 ∷ 0 ∷ []) ++ (for_gadget 10 ++ (for_gadget 7 ++ device_bytes))
