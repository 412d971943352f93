-- ===== src/Crypto.antt =====
-- src/crypto: canonical encoding, hashing and signatures.
pub mod Text
pub mod Encoding
pub mod Signing
