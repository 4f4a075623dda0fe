-- ===== src/Descriptors.antt =====
-- lib/Endpoint, lib/HID, lib/Interface, lib/InterfaceGroup, lib/Configuration: the model of a
-- device's descriptors. A packed descriptor structure is the list of its bytes.
pub mod Errors
pub mod Endpoint
pub mod Chunks
pub mod Interface
pub mod Group
pub mod Configuration
pub mod FullLength
