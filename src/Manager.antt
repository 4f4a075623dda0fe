-- ===== src/Manager.antt =====
-- lib/Manager.cpp: the filters and injectors that are plugged in, the tables of relays, and how
-- relaying is stopped.
pub mod Endpoints
pub mod Filters
pub mod Injectors
pub mod Plugins
pub mod Relaying
