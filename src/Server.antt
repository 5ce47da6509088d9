-- ===== src/Server.antt =====
-- The parts of src/server.
pub mod Buffer
pub mod Message
pub mod Msgpack
pub mod Proto
pub mod Request
mod Tests
