-- ===== src/Engine.antt =====
-- The actor engine: src/engine/SimplxShim.hpp.
pub mod Mailbox
pub mod Registry
pub mod Start
pub mod Tests
