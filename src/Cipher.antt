-- ===== src/Cipher.antt =====
-- player/src/enc/cipher: the two stream ciphers that protect a script.
pub mod Stream
pub mod InPlace
pub mod Xor
pub mod Des
