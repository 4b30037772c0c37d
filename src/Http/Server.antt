-- ===== src/Http/Server.antt =====
-- src/http/loopback_server.cpp and loopback_server.hpp: the server on the loopback interface. The
-- sockets are outside of the model: a call of `send` or `recv` is known by its result, and a loop
-- runs over the results of its calls. The threads take turns at the queue's mutex.
pub mod Send
pub mod Receive
pub mod Connection
pub mod Connections
pub mod Framing
pub mod Shutdown
