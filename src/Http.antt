-- ===== src/Http.antt =====
-- The HTTP side of the engine: the `Range` header, the request and response heads, and the server.
pub mod ByteRange
pub mod Protocol
pub mod Server
