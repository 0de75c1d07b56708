-- ===== src/Desfire.antt =====
-- components/desfire: DESFire EV2 secure messaging over an NFC front end.
pub mod Bind
pub mod State
pub mod Post
pub mod Crypto
pub mod Transport
pub mod Auth
pub mod Secure
pub mod Commands
pub mod Tests
