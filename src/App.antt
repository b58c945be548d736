-- ===== src/App.antt =====
-- app: the demonstration server and client over the library.
pub mod Sockets
pub mod Server
pub mod Requests
pub mod Keeping
pub mod Hearing
pub mod Receiving
pub mod Answering
pub mod Client
pub mod Responses
pub mod Starting
pub mod Startup
pub mod Serving
pub mod Turn
pub mod Connecting
pub mod Reading
pub mod Datagrams
