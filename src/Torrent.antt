-- ===== src/Torrent.antt =====
-- The torrent side of the engine: src/torrent and the headers that it implements.
pub mod Backend
pub mod FileSelection
pub mod StreamBridge
