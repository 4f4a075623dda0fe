-- ===== src/Relay.antt =====
-- lib/RelayWriter.cpp and lib/RelayReader.cpp: the threads between the queues and the two proxies.
pub mod Writer
pub mod Reader
pub mod Control
