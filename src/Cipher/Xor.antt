-- ===== src/Cipher/Xor.antt =====
-- player/src/enc/cipher/xor.c. `none` is a read behind the data or the key, or `i % 0`.
pub mod Laws
use mathlib.Core.Option
use lavender.Base.{ℕ, zero, suc, ◌+◌, ◌%◌, Bool, Bytes, [], ◌∷◌, Option, none, some}
use lavender.Base.{if◌then◌else◌, ◌==◌, get_elem?, bit_xor}
use lavender.Cipher.Stream.{Stream}
use lavender.Zip.Crc.{calculate_crc_indirect}

-- `i % n` of C.
unfoldable pub remainder : ℕ → ℕ → Option ℕ
remainder i zero = none
remainder i (suc n) = some (i % suc n)

infixl 5 ◌>>=◌
abbrev ◌>>=◌ {ℓ κ} : {A : Type ℓ} {B : Type κ} → Option A → (A → Option B) → Option B
none >>= k = none
some a >>= k = k a

unfoldable pub xor_byte : Stream → ℕ → Option ℕ
unfolding remainder
xor_byte stream i = do
  b ← get_elem? stream.content i
  j ← remainder i stream.key_length
  k ← get_elem? stream.key j
  some (bit_xor b k)

-- `_xor_at`; the stream stays as it is.
unfoldable pub xor_at : Stream → ℕ → Option (ℕ × Stream)
unfolding xor_byte
xor_at stream i = do b ← xor_byte stream i; some (b, stream)

-- The loop of `_xor_decrypt` at index `i`: what it writes from there on.
unfoldable pub xor_loop : Stream → ℕ → ℕ → Option Bytes
unfolding xor_byte
xor_loop stream zero i = some []
xor_loop stream (suc left) i = do
  b ← xor_byte stream i
  rest ← xor_loop stream left (i + 1)
  some (b ∷ rest)

-- The bytes that `_xor_decrypt` writes to `dst`. It always returns true.
unfoldable pub xor_decrypt : Stream → Option Bytes
unfolding xor_loop
xor_decrypt stream = xor_loop stream stream.data_length 0

unfoldable pub xor_verify : Stream → ℕ → Option Bool
xor_verify stream crc =
    Option.map (λ r. crc == r.0) (calculate_crc_indirect xor_at stream stream.data_length)
