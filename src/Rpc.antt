-- ===== src/Rpc.antt =====
-- gen/minerva/v1/minerva.v1.tonic.rs: the generated clients and servers of the five services.
pub mod Tonic
pub mod Ready
pub mod Server
pub mod Client
pub mod Paths
pub mod Settings
