-- ===== src/WebSocket.antt =====
-- The live desktop session: backend/src/jarvis/websocket/session.py.
pub mod Registry
pub mod Bounds
pub mod Broker
pub mod Delivery
pub mod Publish
pub mod Stream
pub mod Session
pub mod Frames
pub mod Live
pub mod Handshake
mod Tests
