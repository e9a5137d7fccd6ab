-- ===== src/Crypto.antt =====
-- src/skycoin-api/skycoin_crypto.c: one module for each group of its functions.
pub mod Base58
pub mod Bip44
pub mod Signature
pub mod Address
