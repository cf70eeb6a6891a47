-- ===== src/Bits/Step.antt =====
-- One equation for the lowest digit of each operation.
use Prim.Native.Nat.{min, max, differ, digits, bitwise}
use Prim.Native.Nat.{bit_and-bitwise, bit_or-bitwise, bit_xor-bitwise}
use native.Mathlib.Decide.{dec_le}
use lavender.Base.{ℕ, zero, suc, ◌+◌, ◌*◌, ◌/◌, ◌%◌, ◌≤◌, ◌<◌, bit_and, bit_or, bit_xor}
use lavender.Base.{◌≡◌, refl, ◌∙◌, arith}

-- The native operations stand for a recursion on a count of digits to go; a count that reaches
-- the first number is enough, and any larger one gives the same.
module _ (rest : ℕ → ℕ) (digit : ℕ → ℕ → ℕ) where
  digits_one_more : (n a b : ℕ) → a ≤ n → digits rest digit (suc n) a b ≡ digits rest digit n a b
  digits_one_more zero zero b h = refl
  digits_one_more zero (suc a) b h = absurd (omega arith)
  digits_one_more (suc n) zero b h = refl
  digits_one_more (suc n) (suc a) b h =
      rw (digits_one_more n (suc a / 2) (b / 2) (omega arith)) refl

  digits-bitwise : (n a b : ℕ) → a ≤ n → digits rest digit n a b ≡ bitwise rest digit a b
  digits-bitwise zero zero b h = refl
  digits-bitwise zero (suc a) b h = absurd (omega arith)
  digits-bitwise (suc n) a b h = elim (dec_le a n) [
    | yes p ↦ digits_one_more n a b p ∙ digits-bitwise n a b p
    | no p ↦ let top : a ≡ suc n = omega arith in rw top refl
  ]

  bitwise_step :
      (a b : ℕ)
      → bitwise rest digit (suc a) b
        ≡ bitwise rest digit (suc a / 2) (b / 2) * 2 + digit (suc a % 2) (b % 2)
  bitwise_step a b = rw (digits-bitwise a (suc a / 2) (b / 2) (omega arith)) refl

differ_digits : (x y : ℕ) → x < 2 → y < 2 → differ x y ≡ (x + y) % 2
differ_digits zero y p q = omega arith
differ_digits (suc zero) zero p q = refl
differ_digits (suc zero) (suc zero) p q = refl
differ_digits (suc zero) (suc (suc y)) p q = absurd (omega arith)
differ_digits (suc (suc x)) y p q = absurd (omega arith)

pub bit_or_halves : (m n : ℕ) → bit_or m n ≡ 2 * bit_or (m / 2) (n / 2) + max (m % 2) (n % 2)
bit_or_halves zero n = omega (arith, bit_or-bitwise 0 n, bit_or-bitwise 0 (n / 2))
bit_or_halves (suc m) n = omega (
  arith,
  bitwise_step (λ y. y) max m n,
  bit_or-bitwise (suc m) n,
  bit_or-bitwise (suc m / 2) (n / 2),
)

pub bit_and_halves : (m n : ℕ) → bit_and m n ≡ 2 * bit_and (m / 2) (n / 2) + min (m % 2) (n % 2)
bit_and_halves zero n = omega (arith, bit_and-bitwise 0 n, bit_and-bitwise 0 (n / 2))
bit_and_halves (suc m) n = omega (
  arith,
  bitwise_step (λ y. 0) min m n,
  bit_and-bitwise (suc m) n,
  bit_and-bitwise (suc m / 2) (n / 2),
)

-- The lowest digit of `m ^ n` is that of the sum.
pub bit_xor_halves : (m n : ℕ) → bit_xor m n ≡ bit_xor (m / 2) (n / 2) * 2 + (m % 2 + n % 2) % 2
bit_xor_halves zero n = omega (arith, bit_xor-bitwise 0 n, bit_xor-bitwise 0 (n / 2))
bit_xor_halves (suc m) n =
    rw (← differ_digits (suc m % 2) (n % 2) (omega arith) (omega arith))
      (simp bit_xor-bitwise (bitwise_step (λ y. y) differ m n))
