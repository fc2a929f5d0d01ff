-- ===== src/WsSession.antt =====
-- The websocket session of include/easyprospect-service-shared/session.hpp.
pub mod SendQueue
