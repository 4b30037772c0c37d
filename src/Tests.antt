-- ===== src/Tests.antt =====
-- Runs of the modelled code, and the theorems at concrete inputs.
pub mod Http
pub mod Torrent
pub mod Scheduler
pub mod Runtime
pub mod Cache
pub mod Server
pub mod Storage
pub mod Engine
pub mod Backend
pub mod Bridge
