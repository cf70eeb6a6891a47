-- ===== src/Cipher/Des/Expand.antt =====
-- `_parity` and `__enc_des_expand56` of player/src/enc/cipher/des.c: 56 bits become eight bytes of
-- odd parity.
use native.Mathlib.Nat.{pow-suc, one-le-pow, div-add-mod}
use lavender.Base.{
  ℕ, zero, suc, ◌+◌, ◌*◌, ◌/◌, ◌%◌, ◌^◌, ◌<◌, ◌≡◌, refl, sym, ap, ◌∙◌, Bool, true, false,
}
use lavender.Base.{
  ap₂, [], ◌∷◌, Bytes, All, u8, bit_xor, bit_and, bit_or, ◌<<<◌, ◌>>>◌, ◌==◌, arith,
}
use lavender.Base.{if◌then◌else◌, ◌&&◌, length, ltb}
use lavender.Bits.Fields.{check_below, check_below_sound, mod_of_sum, bit_and_mask}

-- The loop of `_parity`: a byte has no more than eight bits, so eight rounds clear it.
unfoldable pub parity_loop : ℕ → ℕ → ℕ → ℕ
parity_loop zero n ret = ret
parity_loop (suc fuel) n ret = elim (n == 0) [
  | true ↦ ret
  | false ↦ parity_loop fuel (n >>> 1) (bit_xor ret (bit_and n 1))
]

unfoldable pub parity : ℕ → ℕ
parity n = parity_loop 8 n 0

-- A byte of the result, from the low bits of `src`.
unfoldable pub odd_byte : ℕ → ℕ
odd_byte src = let b = u8 (bit_and (u8 src) 0x7F <<< 1) in if parity b == 0 then bit_or b 1 else b

-- The loop of `__enc_des_expand56`, with the bytes still to be written.
unfoldable pub expand_loop : ℕ → ℕ → Bytes
expand_loop zero src = []
expand_loop (suc left) src = odd_byte src ∷ expand_loop left (src >>> 7)

unfoldable pub expand56 : ℕ → Bytes
expand56 src = expand_loop 8 src

-- The number that the seven high bits of each byte spell, the first byte lowest.
unfoldable pub contract56 : Bytes → ℕ
contract56 [] = 0
contract56 (b ∷ bytes) = b / 2 + 128 * contract56 bytes

-- A byte with an odd number of ones.
abbrev pub IsOdd : ℕ → Type 0
IsOdd b = (b < 256) × (parity b ≡ 1)

-- What a byte of the result has to be, as a test.
abbrev is_good : ℕ → Bool
is_good v = ltb (odd_byte v) 256 && (parity (odd_byte v) == 1) && (odd_byte v / 2 == v)

good_below : (v : ℕ) → v < 128 → is_good v ≡ true
unfolding check_below odd_byte parity parity_loop
good_below v h = check_below_sound 128 is_good v refl h

odd_byte-low : (src : ℕ) → odd_byte src ≡ odd_byte (src % 128)
unfolding odd_byte
odd_byte-low src =
    let e : bit_and (u8 src) 0x7F ≡ bit_and (u8 (src % 128)) 0x7F =
      omega (arith, bit_and_mask 7 (u8 src), bit_and_mask 7 (u8 (src % 128))) in
    rw e refl

good_parts :
    (o v : ℕ) → (ltb o 256 && (parity o == 1) && (o / 2 == v)) ≡ true → IsOdd o × (o / 2 ≡ v)
good_parts o v h = ground arith

odd_byte-IsOdd : (src : ℕ) → IsOdd (odd_byte src) × (odd_byte src / 2 ≡ src % 128)
odd_byte-IsOdd src = good_parts (odd_byte src) (src % 128) (
    ap (λ (o : ℕ). ltb o 256 && (parity o == 1) && (o / 2 == src % 128)) (odd_byte-low src)
    ∙ good_below (src % 128) (omega arith))

-- Seven bits below the others.
mod_septet : (src p : ℕ) → 0 < p → src % 128 + 128 * (src / 128 % p) ≡ src % (128 * p)
mod_septet src p pos =
    let small : src / 128 % p < p = omega arith in
    let whole : src ≡ src / 128 / p * (128 * p) + (src % 128 + 128 * (src / 128 % p)) =
      omega (arith, div-add-mod (src / 128) p) in
    sym (
      ap (λ (t : ℕ). t % (128 * p)) whole
      ∙ mod_of_sum (128 * p) (src / 128 / p) (src % 128 + 128 * (src / 128 % p)) (omega arith))

pow_septet : (k : ℕ) → 2 ^ (7 * suc k) ≡ 128 * 2 ^ (7 * k)
pow_septet k =
    ap (λ (e : ℕ). 2 ^ e) {x = 7 * suc k} {y = suc (suc (suc (suc (suc (suc (suc (7 * k)))))))}
      (omega arith)
    ∙ omega (
      arith,
      pow-suc 2 (7 * k),
      pow-suc 2 (suc (7 * k)),
      pow-suc 2 (suc (suc (7 * k))),
      pow-suc 2 (suc (suc (suc (7 * k)))),
      pow-suc 2 (suc (suc (suc (suc (7 * k))))),
      pow-suc 2 (suc (suc (suc (suc (suc (7 * k)))))),
      pow-suc 2 (suc (suc (suc (suc (suc (suc (7 * k))))))),
    )

expand_loop-contract56 :
    (left src : ℕ)
    → All IsOdd (expand_loop left src)
      × (length (expand_loop left src) ≡ left)
      × (contract56 (expand_loop left src) ≡ src % 2 ^ (7 * left))
unfolding expand_loop contract56
expand_loop-contract56 zero src = (tt, refl, omega arith)
expand_loop-contract56 (suc left) src =
    let (odd, high) = odd_byte-IsOdd src in
    let (odds, long, rest) = expand_loop-contract56 left (src >>> 7) in
    let p = 2 ^ (7 * left) in
    let more : 2 ^ (7 * suc left) ≡ 128 * p = pow_septet left in
    (
      (odd, odds),
      ap suc long,
      ap₂ (λ (a b : ℕ). a + 128 * b) high rest
          ∙ mod_septet src p (omega (arith, one-le-pow (7 * left) 2))
          ∙ ap (λ (t : ℕ). src % t) (sym more),
    )

-- The eight bytes that `__enc_des_expand56` writes have odd parity, and their seven high bits spell
-- the low 56 bits of the number.
pub expand56-contract56 :
    (src : ℕ)
    → All IsOdd (expand56 src)
      × (length (expand56 src) ≡ 8)
      × (contract56 (expand56 src) ≡ src % 2 ^ 56)
unfolding expand56
expand56-contract56 src = expand_loop-contract56 8 src
