-- ===== src/Gateway.antt =====
-- The gateway (gateway/): the network layer, the handlers and the two servers.
pub mod Sessions
pub mod Processor
pub mod Router
pub mod Server
pub mod Process
pub mod Discovery
pub mod TcpServer
pub mod Work
pub mod Closing
