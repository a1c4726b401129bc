-- ===== src/Security.antt =====
-- Sessions and requests of the desktop: backend/src/jarvis/security.
pub mod Nonces
pub mod Contracts
pub mod Headers
pub mod Desktop
pub mod Authority
pub mod Valid
pub mod Current
pub mod Rotations
pub mod Challenges
pub mod Stored
pub mod Base64
pub mod Session
pub mod Prove
pub mod Establish
pub mod Proved
pub mod Token
pub mod Granted
pub mod Blank
pub mod Rotating
pub mod Honest
pub mod Asked
pub mod Welcome
pub mod Service
pub mod Entry
pub mod Within
pub mod Entered
pub mod Requests
pub mod Genuine
pub mod Replayed
mod Tests
mod ServiceTests
mod SessionTests
