-- ===== src/Tests/Exchanges.antt =====
-- Plugins/Devices/DeviceProxy_TCP.cpp and Plugins/Hosts/HostProxy_TCP.cpp on small inputs.
use usbproxy.Base.{◌≡◌, refl, inl, some, [], ◌∷◌, arith}
use usbproxy.Result.{ok}
use usbproxy.Packet.{CtrlRequest, request_bytes}
use usbproxy.Network.{arrived}
use usbproxy.Network.Device
use usbproxy.Network.Host
use usbproxy.Network.Host.{null, reply_message}
use usbproxy.Network.Exchange.{sends, wire, control_request-answered}

-- GET_DESCRIPTOR of the device, and SET_REPORT of two bytes.
abbrev get_device : CtrlRequest
get_device = record { request_type = 0x80; request = 6; value = 256; index = 0; length = 2 }

abbrev set_report : CtrlRequest
set_report = record { request_type = 0x21; request = 9; value = 512; index = 0; length = 2 }

control_request-answered_example :
    (Host.control_request (arrived (request_bytes get_device)) ≡ ok (some (get_device, null, 0)))
    × (Device.control_request get_device [] (arrived (wire (sends (18 ∷ 1 ∷ 0 ∷ []))))
        ≡ ok (request_bytes get_device, some (18 ∷ 1 ∷ [])))
unfolding reply_message
control_request-answered_example =
    control_request-answered get_device [] (sends (18 ∷ 1 ∷ 0 ∷ [])) (inl refl) (omega arith)
