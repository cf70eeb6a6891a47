-- ===== src/Cipher/InPlace.antt =====
-- `_xor_decrypt` and `des_decrypt` of player/src/enc/cipher where `dst` and `stream->data` are one buffer, as
-- player/src/enc/enc.c calls them. A write behind the end of the buffer is a fault, `none`.
pub mod Store
pub mod XorLaws
pub mod DesLaws
use lavender.Base.{ℕ, zero, suc, ◌+◌, ◌-◌, ◌/◌, Bool, true, false, Bytes, List, [], ◌∷◌, ◌++◌}
use lavender.Base.{
  Option, none, some, if◌then◌else◌, ltb, leb, take, drop, length, get_or, bit_xor, get_elem?,
}
use lavender.Cipher.Stream.{Stream}
use lavender.Cipher.Xor.{xor_byte}
use lavender.Cipher.Des.Stream.{◌>>=◌, from_bytes, to_bytes, get_pt, copy_unpadded}

-- The buffer with some bytes of it replaced.
unfoldable pub store : Bytes → ℕ → Bytes → Option Bytes
store buffer at bytes =
    if leb (at + length bytes) (length buffer)
    then some (take at buffer ++ (bytes ++ drop (at + length bytes) buffer))
    else none

-- The loop of `_xor_decrypt`: the content is what the writes before have left.
unfoldable pub xor_loop_in_place : Stream → ℕ → ℕ → Option Bytes
xor_loop_in_place stream zero i = some stream.content
xor_loop_in_place stream (suc left) i = do
  b ← xor_byte stream i
  buffer ← store stream.content i (b ∷ [])
  xor_loop_in_place (record stream { content = buffer }) left (i + 1)

-- The buffer that `_xor_decrypt` leaves.
unfoldable pub xor_decrypt_in_place : Stream → Option Bytes
xor_decrypt_in_place stream = xor_loop_in_place stream stream.data_length 0

-- The variables of the loop of `des_decrypt`.
pub record Place : Type 0 where
  pub buffer : Bytes
  pub ct_ptr : ℕ
  pub dst : ℕ
  pub ct_previous : ℕ

unfoldable pub decrypt_loop_in_place : (ℕ → ℕ → ℕ) → ℕ → Place → Option Place
decrypt_loop_in_place pt_of zero p = some p
decrypt_loop_in_place pt_of (suc left) p = do
  ct ← from_bytes (drop p.ct_ptr p.buffer)
  written ← store p.buffer p.dst (to_bytes (pt_of p.ct_previous ct))
  decrypt_loop_in_place pt_of left
      (record { buffer = written; ct_ptr = p.ct_ptr + 8; dst = p.dst + 8; ct_previous = ct })

-- The stream with its new length, the result, and the buffer that `des_decrypt` leaves.
unfoldable pub des_decrypt_in_place : Stream → Option (Stream × Bool × Bytes)
des_decrypt_in_place stream =
    if ltb stream.data_length 8 then some (stream, false, stream.content) else (do
      c ← stream.context
      let length = stream.data_length - 8
      iv ← from_bytes stream.content
      p ←
          decrypt_loop_in_place (get_pt c.subkeys stream.key_length) ((length - 8 + 7) / 8)
            (record { buffer = stream.content; ct_ptr = 8; dst = 0; ct_previous = iv })
      ct ← from_bytes (drop p.ct_ptr p.buffer)
      let pt_bytes = to_bytes (get_pt c.subkeys stream.key_length p.ct_previous ct)
      let padding = get_or pt_bytes 7 0
      last ← copy_unpadded pt_bytes padding
      buffer ← store p.buffer p.dst last
      some (record stream { data_length = length - padding }, true, buffer))
