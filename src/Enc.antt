-- ===== src/Enc.antt =====
-- player/src/enc/enc.c: the streams by their cipher, and the context of encrypted content. A fault, such as a
-- read behind a buffer, makes the result `none`.
pub mod Keys
pub mod Content
pub mod Session
pub mod Caller
use mathlib.Core.Option
use lavender.Base.{ℕ, Bool, true, false, Bytes, [], Option, none, some, replicate, ◌*◌}
use lavender.Cipher.Stream.{Stream}
use lavender.Cipher.Xor.{xor_at, xor_verify}
use lavender.Cipher.Des.Stream.{des_allocate, des_free, des_at, des_verify}
use lavender.Cipher.InPlace.{xor_decrypt_in_place, des_decrypt_in_place}

-- `enc_cipher`
pub data EncCipher : Type 0 where
  xor des tdes : EncCipher

-- The tables of functions `__enc_xor_impl` and `__enc_des_impl`.
pub data Impl : Type 0 where
  xor_impl des_impl : Impl

-- `enc_stream` with its `_impl`.
pub record EncStream : Type 0 where
  pub stream : Stream
  pub impl : Option Impl

-- ENCS_INITIALIZE, ENCS_READ, ENCS_VERIFY, ENCS_COMPLETE
pub data State : Type 0 where
  initialize read verify complete : State

-- The errors that these functions return, negated, and others of the providers.
pub data Errno : Type 0 where
  enoent einval eacces enosys : Errno
  other : ℕ → Errno

-- An `int` that is a result or a negated error.
pub data Status : Type 0 where
  success : ℕ → Status
  failure : Errno → Status

-- `CONTINUE`
abbrev pub continue : Status
continue = success 1

-- `enc_context`. The key is its 16 bytes, and the size is an `int` that is not negative. The stream holds pointers
-- to the content and the key, which `enc_prepare` sets again before each reading.
pub record EncContext : Type 0 where
  pub cipher : EncCipher
  pub provider : ℕ
  pub parameter : Bytes
  pub content : Bytes
  pub size : ℕ
  pub crc32 : ℕ
  pub state : State
  pub enc_stream : EncStream
  pub key : Bytes
  pub buffer : Bytes
  pub local_part : ℕ
  pub passcode : ℕ

abbrev pub impl_of : EncCipher → Impl
impl_of xor = xor_impl
impl_of des = des_impl
impl_of tdes = des_impl

-- The end of `enc_prepare`, with the `_impl` chosen. `memory` says whether `malloc` gives memory.
unfoldable pub allocate : Bool → Impl → Stream → Option (EncStream × Bool)
allocate memory xor_impl s =
    some (record { stream = record s { context = none }; impl = some xor_impl }, true)
allocate memory des_impl s =
    Option.map (λ (r : Stream × Bool). (record { stream = r.0; impl = some des_impl }, r.1))
      (des_allocate memory s)

-- `enc_prepare`. The context of the stream is what was there.
unfoldable pub enc_prepare :
    Bool → EncStream → EncCipher → Bytes → ℕ → Bytes → ℕ → Option (EncStream × Bool)
unfolding allocate
enc_prepare memory e cipher content data_length key key_length =
    allocate memory (impl_of cipher) (record {
      content = content;
      data_length = data_length;
      key = key;
      key_length = key_length;
      context = e.stream.context;
    })

free_by : Option Impl → EncStream → Option (EncStream × Bool)
free_by none e = none
free_by (some xor_impl) e =
    some (record { stream = record e.stream { context = none }; impl = none }, true)
free_by (some des_impl) e = let r = des_free e.stream in some (record e { stream = r.0 }, r.1)

unfoldable pub enc_free : EncStream → Option (EncStream × Bool)
unfolding free_by
enc_free e = free_by e.impl e

at_by : Option Impl → EncStream → ℕ → Option (ℕ × EncStream)
at_by none e i = none
at_by (some xor_impl) e i =
    Option.map (λ (r : ℕ × Stream). (r.0, record e { stream = r.1 })) (xor_at e.stream i)
at_by (some des_impl) e i =
    Option.map (λ (r : ℕ × Stream). (r.0, record e { stream = r.1 })) (des_at e.stream i)

unfoldable pub enc_at : EncStream → ℕ → Option (ℕ × EncStream)
unfolding at_by
enc_at e i = at_by e.impl e i

verify_by : Option Impl → Stream → ℕ → Option Bool
verify_by none s crc = none
verify_by (some xor_impl) s crc = xor_verify s crc
verify_by (some des_impl) s crc = des_verify s crc

-- `enc_verify`. The cache that it fills is given up by `enc_free` before another byte is asked for.
unfoldable pub enc_verify : EncStream → ℕ → Option Bool
unfolding verify_by
enc_verify e crc = verify_by e.impl e.stream crc

decrypt_by : Option Impl → EncStream → Option (EncStream × Bool × Bytes)
decrypt_by none e = none
decrypt_by (some xor_impl) e =
    Option.map (λ (buffer : Bytes). (e, true, buffer)) (xor_decrypt_in_place e.stream)
decrypt_by (some des_impl) e =
    Option.map (λ (r : Stream × Bool × Bytes). (record e { stream = r.0 }, r.1, r.2))
      (des_decrypt_in_place e.stream)

-- `enc_decrypt` over the stream's own data: the stream, the result and the buffer.
unfoldable pub enc_decrypt : EncStream → Option (EncStream × Bool × Bytes)
unfolding decrypt_by
enc_decrypt e = decrypt_by e.impl e
