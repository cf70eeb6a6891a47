-- ===== src/Key/Le/RoundTrip.antt =====
-- A key that is packed into a local and an external number is decoded to itself.
use lavender.Base.{
  ℕ, zero, suc, ◌+◌, ◌-◌, ◌*◌, ◌/◌, ◌%◌, ◌^◌, ◌<◌, ◌≡◌, refl, ap, ap₂, ◌∙◌, get_or, u32, u64,
}
use lavender.Base.{bit_and, bit_or, ◌<<<◌, ◌>>>◌, arith}
use lavender.Bits.Fields.{bit_or-add, bit_or_comm, bit_and_mask}
use lavender.Key.Le.{uintn_max, rotations, rotr24, le32b6d_decode}

-- The rotation that `rotr24` undoes.
abbrev pub rotl24 : ℕ → ℕ → ℕ
rotl24 n c = (n * 2 ^ c + n / 2 ^ (24 - c)) % 2 ^ 24

-- The two numbers for the halves of a key and the choice of their rotations.
abbrev pub local_of : ℕ → ℕ → ℕ → ℕ → ℕ
local_of low high rlow rhigh =
    rotl24 low (get_or rotations rlow 0)
    + rotl24 high (get_or rotations rhigh 0) % 2 ^ 6 * 2 ^ 24
    + rhigh * 2 ^ 30

abbrev pub external_of : ℕ → ℕ → ℕ → ℕ → ℕ
external_of low high rlow rhigh = rotl24 high (get_or rotations rhigh 0) / 2 ^ 6 + rlow * 2 ^ 18

-- A rotation, when `m` is what the cast to 32 bits leaves of `n`.
rotr24_of :
    (c n m : ℕ)
    → u32 (n <<< (24 - c)) ≡ m * 2 ^ (24 - c)
    → n / 2 ^ c < 2 ^ (24 - c)
    → rotr24 n c ≡ (m * 2 ^ (24 - c) + n / 2 ^ c) % 2 ^ 24
unfolding rotr24
rotr24_of c n m cut fits =
    bit_and_mask 24 (bit_or (n >>> c) (u32 (n <<< (24 - c))))
    ∙ ap (λ (t : ℕ). t % 2 ^ 24)
        (bit_or_comm (n >>> c) (u32 (n <<< (24 - c)))
          ∙ ap (λ (t : ℕ). bit_or t (n >>> c)) cut
          ∙ bit_or-add (24 - c) m (n >>> c) fits)

-- Each of the four rotations is undone.
rotr24-rotl24 :
    (i n : ℕ)
    → i < 4
    → n < 2 ^ 24
    → rotr24 (rotl24 n (get_or rotations i 0)) (get_or rotations i 0) ≡ n
rotr24-rotl24 zero n h fits =
    rotr24_of 3 (rotl24 n 3) (rotl24 n 3 % 2 ^ 11) (omega arith) (omega arith) ∙ omega arith
rotr24-rotl24 (suc zero) n h fits =
    rotr24_of 7 (rotl24 n 7) (rotl24 n 7 % 2 ^ 15) (omega arith) (omega arith) ∙ omega arith
rotr24-rotl24 (suc (suc zero)) n h fits =
    rotr24_of 13 (rotl24 n 13) (rotl24 n 13 % 2 ^ 21) (omega arith) (omega arith) ∙ omega arith
rotr24-rotl24 (suc (suc (suc zero))) n h fits =
    rotr24_of 19 (rotl24 n 19) (rotl24 n 19 % 2 ^ 27) (omega arith) (omega arith) ∙ omega arith
rotr24-rotl24 (suc (suc (suc (suc i)))) n h fits = absurd (omega arith)

-- The key, of its halves.
abbrev join : ℕ → ℕ → ℕ
join low high =
    bit_or (u64 (bit_and high (uintn_max 24) <<< 24)) (u64 (bit_and low (uintn_max 24) <<< 0))

-- What the decoder does with the five fields that it masks out.
decode_fields :
    (local external low hi_ext hi_loc rlow rhigh : ℕ)
    → bit_and (local >>> 0) (uintn_max 24) ≡ low
    → bit_and (external >>> 0) (uintn_max 18) ≡ hi_ext
    → bit_and (local >>> 24) (uintn_max 6) ≡ hi_loc
    → bit_and (external >>> 18) (uintn_max 2) ≡ rlow
    → bit_and (local >>> 30) (uintn_max 2) ≡ rhigh
    → le32b6d_decode local external
      ≡ join
          (rotr24 low (get_or rotations rlow 0))
          (rotr24 (u32 (bit_or (hi_ext <<< 6) hi_loc)) (get_or rotations rhigh 0))
unfolding le32b6d_decode
decode_fields local external low hi_ext hi_loc rlow rhigh a b c d e = rw (a, b, c, d, e) refl

join-add : (low high : ℕ) → low < 2 ^ 24 → high < 2 ^ 24 → join low high ≡ high * 2 ^ 24 + low
join-add low high l h =
    let high_is : u64 (bit_and high (uintn_max 24) <<< 24) ≡ high * 2 ^ 24 =
      ap (λ (b : ℕ). u64 (b <<< 24)) (bit_and_mask 24 high) ∙ omega arith in
    let low_is : u64 (bit_and low (uintn_max 24) <<< 0) ≡ low =
      ap (λ (b : ℕ). u64 (b <<< 0)) (bit_and_mask 24 low) ∙ omega arith in
    ap₂ bit_or high_is low_is ∙ bit_or-add 24 high low l

-- The two halves of a 48-bit key, packed with any choice of rotations, are decoded to the key.
pub le32b6d_decode-packed :
    (low high rlow rhigh : ℕ)
    → low < 2 ^ 24
    → high < 2 ^ 24
    → rlow < 4
    → rhigh < 4
    → le32b6d_decode (local_of low high rlow rhigh) (external_of low high rlow rhigh)
      ≡ high * 2 ^ 24 + low
le32b6d_decode-packed low high rlow rhigh fits_low fits_high rl rh =
    let l = rotl24 low (get_or rotations rlow 0) in
    let h = rotl24 high (get_or rotations rhigh 0) in
    let local = local_of low high rlow rhigh in
    let external = external_of low high rlow rhigh in
    let whole : u32 (bit_or ((h / 2 ^ 6) <<< 6) (h % 2 ^ 6)) ≡ h =
      ap u32 (bit_or-add 6 (h / 2 ^ 6) (h % 2 ^ 6) (omega arith)) ∙ omega arith in
    decode_fields local external l (h / 2 ^ 6) (h % 2 ^ 6) rlow rhigh
      (bit_and_mask 24 (local >>> 0) ∙ omega arith) (bit_and_mask 18 (external >>> 0) ∙ omega arith)
      (bit_and_mask 6 (local >>> 24) ∙ omega arith) (bit_and_mask 2 (external >>> 18) ∙ omega arith)
      (bit_and_mask 2 (local >>> 30) ∙ omega arith)
    ∙ ap₂ join (rotr24-rotl24 rlow low rl fits_low) (
        ap (λ (t : ℕ). rotr24 t (get_or rotations rhigh 0)) whole
        ∙ rotr24-rotl24 rhigh high rh fits_high)
    ∙ join-add low high fits_low fits_high
