-- ===== src/Core.antt =====
-- The engine's core: src/core.
pub mod Runtime
pub mod Engine
