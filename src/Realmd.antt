-- ===== src/Realmd.antt =====
-- crates/realmd: the authentication server.
pub mod AuthCodes
pub mod Protocol
pub mod Builds
pub mod RealmList
pub mod Env
pub mod Session
pub mod Checks
pub mod RealmPacket
pub mod LogonChallenge
pub mod LogonProof
pub mod Client
pub mod Reconnect
pub mod ConnectionTracker
pub mod Tests
