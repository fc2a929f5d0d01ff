-- ===== src/Proxy.antt =====
-- The HTTP requests that the proxy hands to its workers: the request and its builder, and the session
-- that reads it from the client.
pub mod Request
pub mod Session
pub mod Headers
pub mod Body
pub mod Octets
pub mod Packages
pub mod Relay
pub mod Answers
