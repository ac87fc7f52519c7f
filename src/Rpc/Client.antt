-- ===== src/Rpc/Client.antt =====
-- The generated clients of tonic.rs, one module for each.
pub mod CommandClient
pub mod UnitClient
pub mod GroupClient
pub mod LocationClient
pub mod SimulationClient
