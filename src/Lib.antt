-- ===== src/Lib.antt =====
-- USBProxy stands between a USB device and a host and passes on what each sends to the other. A
-- device proxy speaks to the device, a host proxy to the host. Each endpoint has a reader thread
-- and a writer thread with a queue between them; filters change packets on their way through the
-- writer, and injectors put packets of their own into the queues. The device's descriptors are
-- read into a model of objects before relaying begins.
--
-- All source paths are below src/.
--
-- Base: numbers, lists, options, Boolean tests and bytes that all parts share.
-- Result: how a piece of the program ends. `ok`, `fault` for a read or write out of bounds or
--   through a null pointer, `exits` for a call of exit, `spins` for a loop that has used its fuel.
-- Queue: lib/SafeQueue.hpp. Every method holds the lock, so each is one step; a wait on the
--   condition ends the step. Queue.Bounds and Queue.Order have its theorems.
-- Packet: lib/Packet.h. Filter: lib/PacketFilter.cpp and the base class in lib/PacketFilter.h.
-- Relay.Writer: relay_write and relay_write_setup of lib/RelayWriter.cpp, one round each, with
--   the filters and the device proxy as parameters. Relay.Reader: relay_read and relay_read_setup
--   of lib/RelayReader.cpp, one round each, with what the proxies return as input. Relay.Control:
--   the two threads of the control endpoint over their two queues, as a step relation.
-- Descriptors: lib/DefinitionErrors.h, lib/Endpoint.cpp, lib/HID.cpp, lib/Interface.cpp,
--   lib/InterfaceGroup.cpp and lib/Configuration.cpp. A descriptor is its bytes. The loops of the
--   constructor of Interface run on fuel, the number of bytes that are left: each round takes at
--   least one unless a descriptor has length 0, in which case the source loops for ever.
-- Strings: lib/USBString.cpp, with a descriptor as its bytes.
-- Loopback: Plugins/Devices/DeviceProxy_Loopback.cpp, the ring of packets and the answers to
--   control requests.
-- MassStorage: Plugins/Filters/PacketFilter_MassStorage.cpp, the commands, the block cache, the
--   password and the injector. KeyLogger: Plugins/Filters/PacketFilter_KeyLogger.cpp, with the file
--   it writes as a list of what is printed; an entry that the constructor leaves unset is a parameter.
-- Manager.Plugins: add_filter, remove_filter, get_filter and cleanup of lib/Manager.cpp, and the
--   same methods for injectors. Manager.Endpoints: the first half of start_data_relaying there.
--   Manager.Filters: the loops there that give the filters to the writers. The rounds of cleanup
--   are counted by fuel, one for each entry.
-- Manager.Relaying: stop_relaying, stopEps, setConfig and the notifications of lib/Manager.cpp;
--   what the manager calls is a list in its state, and the code behind `exit(-1)` in stopEps is left
--   out because it never runs. Manager.Relaying.Start: start_control_relaying, in which the other
--   threads can change the status before each test of it; a list says to what.
-- DeviceQualifier, Device: lib/DeviceQualifier.cpp and lib/Device.cpp. Device has the strings and
--   their languages, Device.Load the constructors, Device.Access the configurations and the check of
--   definition. What a buffer held before a read is a parameter.
-- Tcp: lib/TCP_Helper.cpp, its tables of sockets; what `socket`, `connect`, `poll` and `accept`
--   answer is input. Tcp.Open: open_endpoints there.
-- Manager.Injectors: the rest of start_data_relaying, which gives the injectors their queues and
--   starts the threads.
-- Network: the messages of Plugins/Devices/DeviceProxy_TCP.cpp (Network.Device) and of
--   Plugins/Hosts/HostProxy_TCP.cpp (Network.Host), as the two ends of one connection. The rounds of
--   setConfig, which waits for the endpoints, are counted by fuel that the caller gives: nothing
--   bounds how long the other machine takes.
-- GadgetFs: Plugins/Hosts/HostProxy_GadgetFS.cpp, its slots and how they are closed, with the calls
--   of the system as a list in the state. GadgetFs.Transfers: the asynchronous transfers.
--   GadgetFs.Control: the connection and the control endpoint. GadgetFs.Setup: setConfig, which
--   uses up one answer of the system for each endpoint. GadgetFs.Descriptor: the descriptors that
--   GadgetFS is given; the conversion of a polling interval by `log10` is a parameter.
-- HexString: lib/HexString.cpp; a byte of the new buffer that is not written yet is `none`.
-- Udp: what a datagram injects, Plugins/Injectors/Injector_UDP.cpp and Injector_UDPHID.cpp, and
--   Plugins/Filters/PacketFilter_UDPHID.cpp. Rot13: Plugins/Filters/PacketFilter_ROT13.cpp.
-- Injector: set_queue and the delivery in listen of lib/Injector.cpp. Criteria: lib/Criteria.cpp.
-- ConfigParser: lib/ConfigParser.cpp, with a file as its lines.
-- Tests: the theorems at concrete inputs.
--
-- Machine integers keep their widths: `u8` and `u16` are written where the source converts, and
-- 32-bit counters wrap by `% 2 ^ 32`. Bytes read from the outside are numbers below 256 where a
-- theorem needs it, and its statement says so.
--
-- Not modelled: the proxies over libusb and Wi-Fi, the loading of plugins, and the programs, which
-- are input and output; the opening of sockets and of the files of GadgetFS; the filters that only
-- log; the printing methods; the destructors and memory that is never freed; the flag that stops a
-- thread; and `malloc` running out of memory.
pub mod Base
pub mod Queue
pub mod Result
pub mod Manager
pub mod ConfigParser
pub mod Criteria
pub mod GadgetFs
pub mod HexString
pub mod Injector
pub mod KeyLogger
pub mod MassStorage
pub mod Network
pub mod Packet
pub mod Filter
pub mod Relay
pub mod Descriptors
pub mod Device
pub mod DeviceQualifier
pub mod Loopback
pub mod Rot13
pub mod Strings
pub mod Tcp
pub mod Udp
mod Tests
