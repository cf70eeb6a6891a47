-- ===== src/Cipher/Des/Stream.antt =====
-- The DES and two-key triple DES streams of player/src/enc/cipher/des.c, in CBC mode: an initial
-- vector, then the blocks. `none` is a read behind the data or the key, or a copy of a negative size.
pub mod Blocks
pub mod Plain
pub mod Decrypt
pub mod At
pub mod Verify
pub mod Whole
pub mod Encrypt
use mathlib.Core.Option
use lavender.Base.{ℕ, zero, suc, ◌+◌, ◌-◌, ◌*◌, ◌/◌, ◌%◌, ◌^◌, Bool, true, false, not, ◌||◌, ◌&&◌}
use lavender.Base.{
  Bytes, List, [], ◌∷◌, ◌++◌, Option, none, some, if◌then◌else◌, ltb, ◌==◌, take, drop,
}
use lavender.Base.{get_or, bit_xor, bit_and, ◌>>>◌}
use lavender.Cipher.Stream.{Stream, Context}
use lavender.Cipher.Des.{des, generate_subkeys}
use lavender.Cipher.Des.Tables.{des_rounds}
use lavender.Zip.Crc.{calculate_crc_indirect}

infixl 5 ◌>>=◌
abbrev pub ◌>>=◌ {ℓ κ} : {A : Type ℓ} {B : Type κ} → Option A → (A → Option B) → Option B
none >>= k = none
some a >>= k = k a

-- `_from_bytes`: the eight bytes at the pointer, the first the highest.
unfoldable pub load_bytes : ℕ → ℕ → Bytes → Option ℕ
load_bytes zero acc bytes = some acc
load_bytes (suc left) acc [] = none
load_bytes (suc left) acc (b ∷ bytes) = load_bytes left (acc * 256 + b) bytes

unfoldable pub from_bytes : Bytes → Option ℕ
unfolding load_bytes
from_bytes block = load_bytes 8 0 block

-- `_to_bytes`: the eight bytes that it stores.
unfoldable pub to_bytes : ℕ → Bytes
to_bytes n =
    n / 2 ^ 56 % 256
    ∷ n / 2 ^ 48 % 256
    ∷ n / 2 ^ 40 % 256
    ∷ n / 2 ^ 32 % 256
    ∷ n / 2 ^ 24 % 256
    ∷ n / 2 ^ 16 % 256
    ∷ n / 2 ^ 8 % 256
    ∷ n % 256
    ∷ []

-- `_get_pt` of a stream with these subkeys and this key length.
unfoldable pub get_pt : List ℕ → ℕ → ℕ → ℕ → ℕ
get_pt subkeys key_length iv ct =
    if key_length == 16
    then bit_xor (des subkeys (des (drop des_rounds subkeys) (des subkeys ct false) true) false) iv
    else bit_xor (des subkeys ct false) iv

-- `des_allocate`; `memory` says whether `malloc` gives the context.
unfoldable pub des_allocate : Bool → Stream → Option (Stream × Bool)
des_allocate memory stream =
    if not (stream.key_length == 8) && not (stream.key_length == 16)
    then some (stream, false)
    else if not (bit_and stream.data_length 7 == 0)
    then some (stream, false)
    else if ltb stream.data_length 16
    then some (stream, false)
    else if not memory
    then some (record stream { context = none }, false)
    else (do
      first ← from_bytes stream.key
      second ←
          if ltb 8 stream.key_length
          then Option.map generate_subkeys (from_bytes (drop 8 stream.key))
          else some []
      some (
        record stream {
          context =
              some (record { subkeys = generate_subkeys first ++ second; at_pos = 0; at_pt = 0 });
        },
        true,
      ))

-- `des_free`
unfoldable pub des_free : Stream → Stream × Bool
des_free stream = elim stream.context [
  | none ↦ (stream, false)
  | some c ↦ (record stream { context = none }, true)
]

-- Byte `7 - (i & 7)` of the cached block, the lowest being byte 0.
abbrev pub cached_byte : ℕ → ℕ → ℕ
cached_byte at_pt i = at_pt >>> (8 * (7 - bit_and i 7)) % 256

-- The cache of `des_at` at a position: filled, unless it is there already.
unfoldable pub fill_cache : Stream → Context → ℕ → Option Context
fill_cache stream c position =
    if not (c.at_pos == position)
    then (do
      iv ← from_bytes (drop (position - 8) stream.content)
      ct ← from_bytes (drop position stream.content)
      some (record c { at_pos = position; at_pt = get_pt c.subkeys stream.key_length iv ct }))
    else some c

-- `des_at`: the byte, and the stream with its cache.
unfoldable pub des_at : Stream → ℕ → Option (ℕ × Stream)
unfolding fill_cache
des_at stream i = do
  c ← stream.context
  filled ← fill_cache stream c (8 + i / 8 * 8)
  some (cached_byte filled.at_pt i, record stream { context = some filled })

-- The loop of `des_decrypt` over the blocks before the last: the bytes written, the rest of the data
-- and the block before it.
unfoldable pub decrypt_loop : (ℕ → ℕ → ℕ) → ℕ → Bytes → ℕ → Option (Bytes × Bytes × ℕ)
decrypt_loop pt_of zero ct_ptr ct_previous = some ([], ct_ptr, ct_previous)
decrypt_loop pt_of (suc left) ct_ptr ct_previous = do
  ct ← from_bytes ct_ptr
  (dst, ptr, previous) ← decrypt_loop pt_of left (drop 8 ct_ptr) ct
  some (to_bytes (pt_of ct_previous ct) ++ dst, ptr, previous)

-- `memcpy (dst, pt_bytes, 8 - padding)`
unfoldable pub copy_unpadded : Bytes → ℕ → Option Bytes
copy_unpadded pt_bytes padding = if ltb 8 padding then none else some (take (8 - padding) pt_bytes)

-- `des_decrypt`: the stream with its new length, the result, and the bytes written to `dst`. The loop
-- goes on while the pointer is before the last eight bytes.
unfoldable pub des_decrypt : Stream → Option (Stream × Bool × Bytes)
des_decrypt stream = if ltb stream.data_length 8 then some (stream, false, []) else (do
  c ← stream.context
  let length = stream.data_length - 8
  iv ← from_bytes stream.content
  (dst, ptr, previous) ←
      decrypt_loop (get_pt c.subkeys stream.key_length) ((length - 8 + 7) / 8)
        (drop 8 stream.content) iv
  ct ← from_bytes ptr
  let pt_bytes = to_bytes (get_pt c.subkeys stream.key_length previous ct)
  let padding = get_or pt_bytes 7 0
  last ← copy_unpadded pt_bytes padding
  some (record stream { data_length = length - padding }, true, dst ++ last))

-- `des_verify`
unfoldable pub des_verify : Stream → ℕ → Option Bool
des_verify stream crc = if ltb stream.data_length 16 then some false else (do
  c ← stream.context
  let position = stream.data_length - 8
  iv ← from_bytes (drop (position - 8) stream.content)
  ct ← from_bytes (drop position stream.content)
  let pt_bytes = to_bytes (get_pt c.subkeys stream.key_length iv ct)
  let padding = get_or pt_bytes 7 0
  if ltb 8 padding
      then some false
      else Option.map (λ r. crc == r.0)
          (calculate_crc_indirect des_at stream (stream.data_length - 8 - padding)))
