-- ===== src/Rpc.antt =====
-- The calls between the processes (rpc/).
pub mod Server
pub mod Client
pub mod Request
pub mod RoundTrip
pub mod ZkClient
