-- ===== src/Proto.antt =====
-- gen/minerva/v1/minerva.v1.rs: the messages and enums of package minerva.v1.
pub mod Unknown
pub mod CommandResult
pub mod Side
pub mod UnitCategory
pub mod WaypointType
pub mod Capability
pub mod Units
pub mod Groups
pub mod Commands
pub mod Simulation
pub mod Enums
