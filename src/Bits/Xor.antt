-- ===== src/Bits/Xor.antt =====
-- `^`: an abelian group of exponent two, which halving and bounds commute with.
use native.Mathlib.Nat.{pow-suc}
use lavender.Base.{ℕ, zero, suc, ◌+◌, ◌*◌, ◌/◌, ◌%◌, ◌^◌, ◌≤◌, ◌<◌, bit_xor}
use lavender.Base.{◌≡◌, refl, ap, ◌∙◌, arith}
use lavender.Bits.Step.{bit_xor_halves}

pub bit_xor-half : (a b : ℕ) → bit_xor a b / 2 ≡ bit_xor (a / 2) (b / 2)
bit_xor-half a b = omega (arith, bit_xor_halves a b)

pub bit_xor-parity : (a b : ℕ) → bit_xor a b % 2 ≡ (a % 2 + b % 2) % 2
bit_xor-parity a b = omega (arith, bit_xor_halves a b)

-- Each law is proved for numbers up to a bound, by induction on the bound, which covers the halves.
comm_up_to : (n a b : ℕ) → a ≤ n → b ≤ n → bit_xor a b ≡ bit_xor b a
comm_up_to zero a b p q =
    let a0 : a ≡ 0 = omega arith in let b0 : b ≡ 0 = omega arith in rw (a0, b0) refl
comm_up_to (suc n) a b p q = omega (
  arith,
  bit_xor_halves a b,
  bit_xor_halves b a,
  comm_up_to n (a / 2) (b / 2) (omega arith) (omega arith),
)

pub bit_xor_comm : (a b : ℕ) → bit_xor a b ≡ bit_xor b a
bit_xor_comm a b = comm_up_to (a + b) a b (omega arith) (omega arith)

self_up_to : (n a : ℕ) → a ≤ n → bit_xor a a ≡ 0
self_up_to zero a p = let a0 : a ≡ 0 = omega arith in rw a0 refl
self_up_to (suc n) a p = omega (arith, bit_xor_halves a a, self_up_to n (a / 2) (omega arith))

pub bit_xor_self : (a : ℕ) → bit_xor a a ≡ 0
bit_xor_self a = self_up_to a a (omega arith)

zero_up_to : (n a : ℕ) → a ≤ n → bit_xor a 0 ≡ a
zero_up_to zero a p = let a0 : a ≡ 0 = omega arith in rw a0 refl
zero_up_to (suc n) a p = omega (arith, bit_xor_halves a 0, zero_up_to n (a / 2) (omega arith))

pub bit_xor-zero : (a : ℕ) → bit_xor a 0 ≡ a
bit_xor-zero a = zero_up_to a a (omega arith)

assoc_up_to :
    (n a b c : ℕ) → a ≤ n → b ≤ n → c ≤ n → bit_xor (bit_xor a b) c ≡ bit_xor a (bit_xor b c)
assoc_up_to zero a b c p q r =
    let a0 : a ≡ 0 = omega arith in
    let b0 : b ≡ 0 = omega arith in let c0 : c ≡ 0 = omega arith in rw (a0, b0, c0) refl
assoc_up_to (suc n) a b c p q r =
    let left : bit_xor (bit_xor a b) c
        ≡ bit_xor (bit_xor (a / 2) (b / 2)) (c / 2) * 2 + (bit_xor a b % 2 + c % 2) % 2 =
      rw (← bit_xor-half a b) (bit_xor_halves (bit_xor a b) c) in
    let right : bit_xor a (bit_xor b c)
        ≡ bit_xor (a / 2) (bit_xor (b / 2) (c / 2)) * 2 + (a % 2 + bit_xor b c % 2) % 2 =
      rw (← bit_xor-half b c) (bit_xor_halves a (bit_xor b c)) in
    omega (
      arith,
      bit_xor-parity a b,
      bit_xor-parity b c,
      assoc_up_to n (a / 2) (b / 2) (c / 2) (omega arith) (omega arith) (omega arith),
    )

pub bit_xor_assoc : (a b c : ℕ) → bit_xor (bit_xor a b) c ≡ bit_xor a (bit_xor b c)
bit_xor_assoc a b c = assoc_up_to (a + b + c) a b c (omega arith) (omega arith) (omega arith)

-- The same mask twice is no mask.
pub bit_xor_cancel : (a m : ℕ) → bit_xor (bit_xor a m) m ≡ a
bit_xor_cancel a m = bit_xor_assoc a m m ∙ ap (bit_xor a) (bit_xor_self m) ∙ bit_xor-zero a

pub bit_xor-lt : (k a b : ℕ) → a < 2 ^ k → b < 2 ^ k → bit_xor a b < 2 ^ k
bit_xor-lt zero a b p q =
    let a0 : a ≡ 0 = omega arith in let b0 : b ≡ 0 = omega arith in rw (a0, b0) (omega arith)
bit_xor-lt (suc k) a b p q = omega (
  arith,
  pow-suc 2 k,
  bit_xor_halves a b,
  bit_xor-lt k (a / 2) (b / 2) (omega (arith, pow-suc 2 k)) (omega (arith, pow-suc 2 k)),
)

-- Exchange in a sum of four.
pub bit_xor_exchange :
    (a b c d : ℕ) → bit_xor (bit_xor a b) (bit_xor c d) ≡ bit_xor (bit_xor a c) (bit_xor b d)
bit_xor_exchange a b c d =
    bit_xor_assoc a b (bit_xor c d)
    ∙ ap (bit_xor a) (sym' b c d)
    ∙ rw (bit_xor_assoc a c (bit_xor b d)) refl
  where
    sym' : (x y z : ℕ) → bit_xor x (bit_xor y z) ≡ bit_xor y (bit_xor x z)
    sym' x y z = rw (← bit_xor_assoc x y z) (rw (bit_xor_comm x y) (bit_xor_assoc y x z))

-- `^` of disjoint fields is a sum.
pub bit_xor-add : (k q r : ℕ) → r < 2 ^ k → bit_xor (q * 2 ^ k) r ≡ q * 2 ^ k + r
bit_xor-add zero q r fits =
    let r0 : r ≡ 0 = omega arith in rw r0 (omega (arith, bit_xor-zero (q * 2 ^ 0)))
bit_xor-add (suc k) q r fits =
    let twice : q * 2 ^ suc k ≡ 2 * (q * 2 ^ k) =
      omega (arith, ap (λ (t : ℕ). q * t) (pow-suc 2 k)) in
    let halved : q * 2 ^ suc k / 2 ≡ q * 2 ^ k = omega (arith, twice) in
    let digit : bit_xor (q * 2 ^ suc k) r ≡ bit_xor (q * 2 ^ k) (r / 2) * 2 + r % 2 =
      omega (arith, twice, rw halved at (bit_xor_halves (q * 2 ^ suc k) r)) in
    omega (arith, twice, bit_xor-add k q (r / 2) (omega (arith, pow-suc 2 k)))
