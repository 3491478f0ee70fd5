-- ===== src/Services.antt =====
-- The business layer (services/).
pub mod Filename
pub mod FileService
pub mod UserService
pub mod ChunkRpc
pub mod Methods
pub mod ChunkMethods
