-- ===== src/Codec.antt =====
-- The text encodings of src/common.
pub mod Base58
pub mod Hex
