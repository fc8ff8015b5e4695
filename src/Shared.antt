-- ===== src/Shared.antt =====
-- crates/shared: what the authentication server uses of the shared library.
pub mod ByteBuffer
pub mod Digits
pub mod BigNumber
pub mod Crypto
pub mod Srp6
pub mod Types
pub mod Base32
pub mod Config
pub mod Database
pub mod Samples
pub mod Tests
