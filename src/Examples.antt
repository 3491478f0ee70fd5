-- ===== src/Examples.antt =====
-- Concrete inputs for the theorems.
mod FlatJson
mod Wire
mod Disks
mod Users
mod Files
mod Threads
mod Connections
mod Chunks
mod Tasks
mod Replies
mod Calls
mod Remotes
mod Clients
mod Registry
mod Console
mod Uploads
