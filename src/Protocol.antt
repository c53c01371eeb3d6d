-- ===== src/Protocol.antt =====
-- protocol/: the data that travels between agent and server, version negotiation, and the server's structured rejections.
pub mod Action
pub mod Incompatibility
pub mod Negotiate
pub mod Agreement
pub mod Inferred
mod Tests
