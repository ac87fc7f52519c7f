-- ===== src/Rpc/Server.antt =====
-- The generated servers of tonic.rs, one module for each. Http and its replies are parameters.
pub mod CommandServer
pub mod UnitServer
pub mod GroupServer
pub mod LocationServer
pub mod SimulationServer
