-- ===== src/Protocol.antt =====
-- Master/Master.ino and Slave/Slave.ino together: a packet that one of them makes is what the other
-- takes it for.
pub mod NetworkSettings
pub mod SensorInfo
pub mod Report
pub mod IrValues
pub mod InfraredCode
mod Tests
use spu_energy_efficient_sys.Common.{ℕ, List, [], ◌∷◌, ◌++◌, map, ℤ, pos, to_byte}

-- The bytes behind the code of a packet of the master: its words, and the number of the packet.
abbrev pub behind_code : List ℤ → ℕ → List ℕ
behind_code words number = map to_byte words ++ (to_byte (pos number) ∷ [])
