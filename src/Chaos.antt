-- ===== src/Chaos.antt =====
-- The fault injector, chaosd.
pub mod World
pub mod Toxiproxy
pub mod Faults
pub mod Experiment
pub mod Gameday
pub mod Reporter
pub mod Process
pub mod Machine
pub mod Command
mod Tests
