-- ===== src/Enc/Caller.antt =====
-- player/src/enc/provider/caller.c: the key is given in the script. A read behind the parameter is a fault, `none`.
pub mod Laws
use lavender.Base.{
  ℕ, zero, suc, ◌+◌, ◌*◌, ◌/◌, ◌%◌, ◌^◌, Bytes, [], ◌∷◌, ◌++◌, Option, none, some, drop,
}
use lavender.Cipher.Des.Stream.{◌>>=◌}
use lavender.Num.{rstrtoull, xtob}
use lavender.Enc.{EncCipher, xor, des, tdes, EncContext, Status, success, failure, enosys}
use lavender.Enc.Content.{key_size}

-- The loop over `xtob ((const char *)enc->parameter + (2 * i))` from `i` on.
unfoldable pub key_pairs : ℕ → ℕ → Bytes → Option Bytes
key_pairs zero i parameter = some []
key_pairs (suc left) i parameter = do
  b ← xtob (drop (2 * i) parameter)
  rest ← key_pairs left (i + 1) parameter
  some (b ∷ rest)

-- The eight bytes of `enc->key.qw`, the lowest first.
abbrev pub le64 : ℕ → Bytes
le64 n =
    n % 256
    ∷ n / 2 ^ 8 % 256
    ∷ n / 2 ^ 16 % 256
    ∷ n / 2 ^ 24 % 256
    ∷ n / 2 ^ 32 % 256
    ∷ n / 2 ^ 40 % 256
    ∷ n / 2 ^ 48 % 256
    ∷ n / 2 ^ 56 % 256
    ∷ []

-- `__enc_caller_proc (ENCM_TRANSFORM, enc)`, by the cipher.
unfoldable pub caller_key : EncCipher → EncContext → Option (Status × EncContext)
unfolding key_pairs
caller_key xor enc = do
  n ← rstrtoull enc.parameter 16
  some (success 0, record enc { key = le64 n ++ drop 8 enc.key })
caller_key des enc = do
  bytes ← key_pairs (key_size des) 0 enc.parameter
  some (success 0, record enc { key = bytes ++ drop (key_size des) enc.key })
caller_key tdes enc = do
  bytes ← key_pairs (key_size tdes) 0 enc.parameter
  some (success 0, record enc { key = bytes ++ drop (key_size tdes) enc.key })

unfoldable pub caller_transform : EncContext → Option (Status × EncContext)
unfolding caller_key
caller_transform enc = caller_key enc.cipher enc

-- `__enc_caller_proc` on ENCM_INITIALIZE, ENCM_GET_STORAGE_POLICY (ENCSTORPOL_NONE) and every other message.
abbrev pub caller_initialize : Status
caller_initialize = success 0

abbrev pub caller_storage_policy : Status
caller_storage_policy = success 0

abbrev pub caller_other : Status
caller_other = failure enosys
