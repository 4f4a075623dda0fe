-- ===== src/Tests.antt =====
-- The theorems at concrete inputs.
mod Sockets
mod Starts
mod Models
mod Mouse
mod Queues
mod Datagrams
mod Descriptors
mod Exchanges
mod Filters
mod Gadgets
mod Relays
mod Devices
mod Storage
mod Texts
mod Managers
mod Settings
