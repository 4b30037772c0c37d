-- ===== src/Storage.antt =====
-- The storage of state files and the reading of payload files.
pub mod WriteLoop
pub mod AtomicFile
pub mod BoundedFile
pub mod PayloadReader
