-- ===== src/Cipher/Stream.antt =====
-- `enc_stream` of player/inc/enc.h. `content` is its `data`: it and `key` are the bytes from the pointer
-- to the end of the object that it points into. A read behind that end is a fault, `none`.
use lavender.Base.{ℕ, List, Bytes, Option}

-- `des_context`. The XOR cipher has none.
pub record Context : Type 0 where
  pub subkeys : List ℕ
  pub at_pos : ℕ
  pub at_pt : ℕ

pub record Stream : Type 0 where
  pub content : Bytes
  pub data_length : ℕ
  pub key : Bytes
  pub key_length : ℕ
  pub context : Option Context
