-- ===== src/Bits/Fields.antt =====
-- `|` of disjoint fields is a sum and `&` with a low mask a remainder, at every width.
use native.Mathlib.Nat.{pow-suc, one-le-pow, div-add-mod}
use lavender.Base.{ℕ, zero, suc, ◌+◌, ◌-◌, ◌*◌, ◌/◌, ◌%◌, ◌^◌, ◌≤◌, ◌<◌, bit_and, bit_or}
use lavender.Base.{◌≡◌, refl, ap, ◌∙◌, Bool, true, ◌&&◌, arith}
use lavender.Bits.Step.{bit_or_halves, bit_and_halves}

or_zero_up_to : (n a : ℕ) → a ≤ n → bit_or a 0 ≡ a
or_zero_up_to zero a p = let a0 : a ≡ 0 = omega arith in rw a0 refl
or_zero_up_to (suc n) a p = omega (arith, bit_or_halves a 0, or_zero_up_to n (a / 2) (omega arith))

and_zero_up_to : (n a : ℕ) → a ≤ n → bit_and a 0 ≡ 0
and_zero_up_to zero a p = let a0 : a ≡ 0 = omega arith in rw a0 refl
and_zero_up_to (suc n) a p =
    omega (arith, bit_and_halves a 0, and_zero_up_to n (a / 2) (omega arith))

pub zero-bit_or : (a : ℕ) → bit_or 0 a ≡ a
zero-bit_or a = up_to a a (omega arith)
  where
    up_to : (n b : ℕ) → b ≤ n → bit_or 0 b ≡ b
    up_to zero b p = let b0 : b ≡ 0 = omega arith in rw b0 refl
    up_to (suc n) b p = omega (arith, bit_or_halves 0 b, up_to n (b / 2) (omega arith))

pub twice_pow : (q k : ℕ) → q * 2 ^ suc k ≡ 2 * (q * 2 ^ k)
twice_pow q k = omega (arith, ap (λ (t : ℕ). q * t) (pow-suc 2 k))

-- A field of `k` bits below a shifted one.
pub bit_or-add : (k q r : ℕ) → r < 2 ^ k → bit_or (q * 2 ^ k) r ≡ q * 2 ^ k + r
bit_or-add zero q r fits =
    let r0 : r ≡ 0 = omega arith in rw r0 (omega (arith, or_zero_up_to (q * 2 ^ 0) (q * 2 ^ 0)))
bit_or-add (suc k) q r fits =
    let halved : q * 2 ^ suc k / 2 ≡ q * 2 ^ k = omega (arith, twice_pow q k) in
    let digit : bit_or (q * 2 ^ suc k) r ≡ bit_or (q * 2 ^ k) (r / 2) * 2 + r % 2 =
      omega (arith, twice_pow q k, rw halved at (bit_or_halves (q * 2 ^ suc k) r)) in
    omega (arith, twice_pow q k, bit_or-add k q (r / 2) (omega (arith, pow-suc 2 k)))

pub mod_of_sum : (p q r : ℕ) → r < p → (q * p + r) % p ≡ r
mod_of_sum p q r h = grind arith

div_of_sum : (p q r : ℕ) → r < p → (q * p + r) / p ≡ q
div_of_sum p q r h = grind arith

-- The low `k + 1` bits: the lowest, and `k` bits of the half.
pub mod_pow_suc : (k a : ℕ) → a % 2 ^ suc k ≡ a / 2 % 2 ^ k * 2 + a % 2
mod_pow_suc k a =
    let p = 2 ^ k in
    let h = a / 2 in
    let small : h % p < p = omega (arith, one-le-pow k 2) in
    let whole : a ≡ h / p * 2 ^ suc k + (h % p * 2 + a % 2) =
      omega (arith, twice_pow (h / p) k, div-add-mod h p) in
    ap (λ (t : ℕ). t % 2 ^ suc k) whole
    ∙ mod_of_sum (2 ^ suc k) (h / p) (h % p * 2 + a % 2) (omega (arith, pow-suc 2 k))

pub div_pow_suc : (k a : ℕ) → a / 2 ^ suc k ≡ a / 2 / 2 ^ k
div_pow_suc k a =
    let p = 2 ^ k in
    let h = a / 2 in
    let small : h % p < p = omega (arith, one-le-pow k 2) in
    let whole : a ≡ h / p * 2 ^ suc k + (h % p * 2 + a % 2) =
      omega (arith, twice_pow (h / p) k, div-add-mod h p) in
    ap (λ (t : ℕ). t / 2 ^ suc k) whole
    ∙ div_of_sum (2 ^ suc k) (h / p) (h % p * 2 + a % 2) (omega (arith, pow-suc 2 k))

-- A mask of `k` ones.
pub bit_and_mask : (k a : ℕ) → bit_and a (2 ^ k - 1) ≡ a % 2 ^ k
bit_and_mask zero a = omega (arith, and_zero_up_to a a)
bit_and_mask (suc k) a =
    let halved : (2 ^ suc k - 1) / 2 ≡ 2 ^ k - 1 = omega (arith, pow-suc 2 k, one-le-pow k 2) in
    let digit : bit_and a (2 ^ suc k - 1) ≡ bit_and (a / 2) (2 ^ k - 1) * 2 + a % 2 =
      omega (arith, pow-suc 2 k, one-le-pow k 2, rw halved at (bit_and_halves a (2 ^ suc k - 1))) in
    omega (arith, pow-suc 2 k, bit_and_mask k (a / 2), mod_pow_suc k a)

-- A statement about the numbers below a bound that evaluation can decide.
unfoldable pub check_below : ℕ → (ℕ → Bool) → Bool
check_below zero test = true
check_below (suc n) test = test n && check_below n test

pub check_below_sound :
    (n : ℕ) (test : ℕ → Bool) (x : ℕ) → check_below n test ≡ true → x < n → test x ≡ true
unfolding check_below
check_below_sound zero test x h lt = absurd (omega arith)
check_below_sound (suc n) test x h lt = ground (arith, check_below_sound n test x)

bit_or_comm_up_to : (n a b : ℕ) → a ≤ n → b ≤ n → bit_or a b ≡ bit_or b a
bit_or_comm_up_to zero a b p q =
    let a0 : a ≡ 0 = omega arith in let b0 : b ≡ 0 = omega arith in rw (a0, b0) refl
bit_or_comm_up_to (suc n) a b p q = omega (
  arith,
  bit_or_halves a b,
  bit_or_halves b a,
  bit_or_comm_up_to n (a / 2) (b / 2) (omega arith) (omega arith),
)

pub bit_or_comm : (a b : ℕ) → bit_or a b ≡ bit_or b a
bit_or_comm a b = bit_or_comm_up_to (a + b) a b (omega arith) (omega arith)
