-- ===== src/MassStorage/Passing.antt =====
-- Writes that are passed on, with the cache in use.
use usbproxy.Base.{◌≡◌, true, false}
use usbproxy.Packet.{Packet}
use usbproxy.MassStorage.{MassStorage, writing}

-- A transfer that is cached and not blocked.
pub record IsPassing (s : MassStorage) : Type 0 where
  pub phase : s.state ≡ writing
  pub passes : s.block_writes ≡ false
  pub quiet : s.inband_signalling ≡ false
  pub caches : s.cache_blocks ≡ true
