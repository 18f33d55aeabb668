-- ===== src/Signing.antt =====
-- src/trustrail/signing and src/trustrail/canonical.py: digests and signatures.
pub mod Libraries
pub mod Crypto
pub mod Eip712
pub mod Eip3009
pub mod Evidence
pub mod Kms
mod Tests
