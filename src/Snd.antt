-- ===== src/Snd.antt =====
-- The sound of player/src/snd as far as it does not drive a device.
pub mod Buf
pub mod Midi
pub mod Seq
