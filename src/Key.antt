-- ===== src/Key.antt =====
-- The key formats of player/src/enc/keyfmt.
pub mod Pkey
pub mod Le
