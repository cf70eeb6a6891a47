-- ===== src/Zip/Crc/Reference.antt =====
-- The definition of CRC-32, one bit at a time, and that the table computes it.
use lavender.Base.{ℕ, ◌-◌, ◌*◌, ◌/◌, ◌%◌, ◌^◌, ◌<◌, bit_xor}
use lavender.Base.{true, if◌then◌else◌, ◌==◌, ==_iff, ◌≡◌, refl, ap, ap₂, ◌∙◌, sym, arith}
use lavender.Base.{[], ◌∷◌, Bytes, All, get_or, inl, inr, ◌⊎◌}
use lavender.Bits.Xor.{
  bit_xor-half, bit_xor-parity, bit_xor_assoc, bit_xor_comm, bit_xor_exchange, bit_xor-add,
  bit_xor-lt, bit_xor-zero, bit_xor_self,
}
use lavender.Bits.Fields.{bit_and_mask, check_below, check_below_sound}
use lavender.Zip.Crc.{crc_table, crc_nibble, crc_byte, crc_loop, complement32, calculate_crc}

-- The polynomial of CRC-32 (IEEE 802.3), with its bits reversed.
abbrev pub polynomial : ℕ
polynomial = 0xEDB88320

-- The register moves one bit to the right, and takes the polynomial in where a one falls out.
unfoldable pub shift : ℕ → ℕ
shift c = if c % 2 == 1 then bit_xor (c / 2) polynomial else c / 2

abbrev pub shift_four : ℕ → ℕ
shift_four c = shift (shift (shift (shift c)))

unfoldable pub reference_loop : ℕ → Bytes → ℕ
reference_loop c [] = c
reference_loop c (b ∷ bytes) = reference_loop (shift_four (shift_four (bit_xor c b))) bytes

unfoldable pub reference : Bytes → ℕ
reference bytes = complement32 (reference_loop (2 ^ 32 - 1) bytes)

shift_even : (c : ℕ) → c % 2 ≡ 0 → shift c ≡ c / 2
unfolding shift
shift_even c h = ground arith

shift_odd : (c : ℕ) → c % 2 ≡ 1 → shift c ≡ bit_xor (c / 2) polynomial
unfolding shift
shift_odd c h = ground arith

shift-xor_mixed :
    (a b : ℕ) → a % 2 ≡ 0 → b % 2 ≡ 1 → shift (bit_xor a b) ≡ bit_xor (shift a) (shift b)
shift-xor_mixed a b p q =
    shift_odd (bit_xor a b) (omega (arith, bit_xor-parity a b))
    ∙ rw (bit_xor-half a b, shift_even a p, shift_odd b q)
        (bit_xor_assoc (a / 2) (b / 2) polynomial)

-- The register is linear: what enters together leaves as the sum.
shift-xor_cases :
    (a b : ℕ)
    → (a % 2 ≡ 0) ⊎ (a % 2 ≡ 1)
    → (b % 2 ≡ 0) ⊎ (b % 2 ≡ 1)
    → shift (bit_xor a b) ≡ bit_xor (shift a) (shift b)
shift-xor_cases a b (inl p) (inl q) =
    shift_even (bit_xor a b) (omega (arith, bit_xor-parity a b))
    ∙ bit_xor-half a b
    ∙ ap₂ bit_xor (sym (shift_even a p)) (sym (shift_even b q))
shift-xor_cases a b (inl p) (inr q) = shift-xor_mixed a b p q
shift-xor_cases a b (inr p) (inl q) =
    rw (bit_xor_comm a b, bit_xor_comm (shift a) (shift b)) (shift-xor_mixed b a q p)
shift-xor_cases a b (inr p) (inr q) =
    shift_even (bit_xor a b) (omega (arith, bit_xor-parity a b))
    ∙ rw
        (
          bit_xor-half a b,
          shift_odd a p,
          shift_odd b q,
          bit_xor_exchange (a / 2) polynomial,
          bit_xor_self polynomial,
        )
        (sym (bit_xor-zero (bit_xor (a / 2) (b / 2))))

shift-xor : (a b : ℕ) → shift (bit_xor a b) ≡ bit_xor (shift a) (shift b)
shift-xor a b = shift-xor_cases a b (omega arith) (omega arith)

shift_four-xor : (a b : ℕ) → shift_four (bit_xor a b) ≡ bit_xor (shift_four a) (shift_four b)
shift_four-xor a b = simp shift-xor

shift_twice : (q : ℕ) → shift (q * 2) ≡ q
shift_twice q = shift_even (q * 2) (omega arith) ∙ omega arith

shift_four_sixteen : (q : ℕ) → shift_four (q * 16) ≡ q
shift_four_sixteen q =
    let split : q * 16 ≡ q * 2 * 2 * 2 * 2 = omega arith in rw split (simp shift_twice)

-- The table holds the register's answer to each half byte.
table_is_shift_four : check_below 16 (λ n. shift_four n == get_or crc_table n 0) ≡ true
unfolding shift check_below
table_is_shift_four = refl

table_lem : (n : ℕ) → n < 16 → shift_four n ≡ get_or crc_table n 0
table_lem n h = (==_iff _ _).0 (check_below_sound 16 _ n table_is_shift_four h)

crc_nibble-shift_four : (c n : ℕ) → n < 16 → crc_nibble c n ≡ shift_four (bit_xor c n)
unfolding crc_nibble
crc_nibble-shift_four c n h =
    let q = c / 16 in
    let r = c % 16 in
    let fields : bit_xor (q * 16) r ≡ c = bit_xor-add 4 q r (omega arith) ∙ omega arith in
    let small : bit_xor r n < 16 = bit_xor-lt 4 r n (omega arith) h in
    let entered : shift_four (bit_xor c n) ≡ bit_xor q (get_or crc_table (bit_xor r n) 0) =
      ap (λ (t : ℕ). shift_four (bit_xor t n)) (sym fields)
      ∙ ap shift_four (bit_xor_assoc (q * 16) r n)
      ∙ shift_four-xor (q * 16) (bit_xor r n)
      ∙ ap₂ bit_xor (shift_four_sixteen q) (table_lem (bit_xor r n) small) in
    rw (bit_and_mask 4 c) (sym entered)

crc_byte-shift_four : (c b : ℕ) → b < 256 → crc_byte c b ≡ shift_four (shift_four (bit_xor c b))
unfolding crc_byte
crc_byte-shift_four c b h =
    let low = b % 16 in
    let high = b / 16 in
    let fields : bit_xor low (high * 16) ≡ b =
      bit_xor_comm low (high * 16) ∙ bit_xor-add 4 high low (omega arith) ∙ omega arith in
    let first : crc_nibble c low ≡ shift_four (bit_xor c low) =
      crc_nibble-shift_four c low (omega arith) in
    let joined : bit_xor (shift_four (bit_xor c low)) high ≡ shift_four (bit_xor c b) =
      ap (bit_xor (shift_four (bit_xor c low))) (sym (shift_four_sixteen high))
      ∙ sym (shift_four-xor (bit_xor c low) (high * 16))
      ∙ ap shift_four (bit_xor_assoc c low (high * 16) ∙ ap (bit_xor c) fields) in
    rw (bit_and_mask 4 b) (
      ap (λ (t : ℕ). crc_nibble t high) first
      ∙ crc_nibble-shift_four (shift_four (bit_xor c low)) high (omega arith)
      ∙ ap shift_four joined)

crc_loop-reference_loop :
    (c : ℕ) (bytes : Bytes) → All (λ b. b < 256) bytes → crc_loop c bytes ≡ reference_loop c bytes
unfolding crc_loop reference_loop
crc_loop-reference_loop c [] h = refl
crc_loop-reference_loop c (b ∷ bytes) (hb, h) =
    ap (λ (t : ℕ). crc_loop t bytes) (crc_byte-shift_four c b hb)
    ∙ crc_loop-reference_loop (shift_four (shift_four (bit_xor c b))) bytes h

-- `zip_calculate_crc` over any bytes is the CRC-32 of these bytes, as its definition by single
-- bits has it.
pub calculate_crc-reference :
    (bytes : Bytes) → All (λ b. b < 256) bytes → calculate_crc bytes ≡ reference bytes
unfolding calculate_crc reference
calculate_crc-reference bytes h = ap complement32 (crc_loop-reference_loop (2 ^ 32 - 1) bytes h)
