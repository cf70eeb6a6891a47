-- ===== src/Key/Le.antt =====
-- The key pairs of player/src/enc/keyfmt/le.c: a local and an external 32-bit number hold the
-- halves of a 48-bit key, each half rotated.
pub mod RoundTrip
use lavender.Base.{ℕ, ◌+◌, ◌-◌, ◌*◌, ◌^◌, List, [], ◌∷◌, get_or, u32, u64}
use lavender.Base.{bit_and, bit_or, ◌<<<◌, ◌>>>◌}

-- `UINTN_MAX`, for an `unsigned long` of 64 bits.
abbrev pub uintn_max : ℕ → ℕ
uintn_max n = u64 (1 <<< n) - 1

abbrev pub rotations : List ℕ
rotations = 3 ∷ 7 ∷ 13 ∷ 19 ∷ []

unfoldable pub rotr24 : ℕ → ℕ → ℕ
rotr24 n c = bit_and (bit_or (n >>> c) (u32 (n <<< (24 - c)))) (uintn_max 24)

-- `__enc_le32b6d_decode`: the key that is copied to `dst`.
unfoldable pub le32b6d_decode : ℕ → ℕ → ℕ
le32b6d_decode local external =
    let low = bit_and (local >>> 0) (uintn_max 24) in
    let high = u32 (
      bit_or (bit_and (external >>> 0) (uintn_max 18) <<< 6)
        (bit_and (local >>> 24) (uintn_max 6))) in
    let rlow = bit_and (external >>> 18) (uintn_max 2) in
    let rhigh = bit_and (local >>> 30) (uintn_max 2) in
    let low' = rotr24 low (get_or rotations rlow 0) in
    let high' = rotr24 high (get_or rotations rhigh 0) in
    bit_or (u64 (bit_and high' (uintn_max 24) <<< 24)) (u64 (bit_and low' (uintn_max 24) <<< 0))
