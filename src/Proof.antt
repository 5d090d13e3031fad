-- ===== src/Proof.antt =====
-- Encrypted slates and their proofs: src/common/message.rs and src/wallet/types/tx_proof.rs.
pub mod Cipher
pub mod Message
pub mod Evidence
pub mod Delivery
pub mod Checks
mod Tests
