-- ===== src/Cipher/Des/Permutation.antt =====
-- `_permute` as a choice of bits, and when one table undoes another.
use native.Mathlib.Nat.{pow-suc, one-le-pow, mod-eq_of_lt}
use lavender.Base.{ℕ, zero, suc, ◌+◌, ◌-◌, ◌*◌, ◌/◌, ◌%◌, ◌^◌, ◌≤◌, ◌<◌, ◌≡◌, refl, ap, sym, ◌∙◌}
use lavender.Base.{List, [], ◌∷◌, map, arith, length, length-map, get_or, All, bit_or, ap₂}
use lavender.Bits.Fields.{bit_or-add, bit_and_mask, div_pow_suc, mod_pow_suc, twice_pow}
use lavender.Cipher.Des.{permute_loop, permute}

-- Bit `k` of a number, the lowest being bit 0.
abbrev pub bit : ℕ → ℕ → ℕ
bit n k = n / 2 ^ k % 2

-- The number whose bits, the highest first, are listed.
pub of_bits : List ℕ → ℕ
of_bits [] = 0
of_bits (b ∷ bits) = b * 2 ^ length bits + of_bits bits

pub of_bits-lt : (bits : List ℕ) → All (λ b. b < 2) bits → of_bits bits < 2 ^ length bits
unfolding of_bits
of_bits-lt [] h = omega arith
of_bits-lt (zero ∷ bits) h = omega (arith, of_bits-lt bits h.1, pow-suc 2 (length bits))
of_bits-lt (suc zero ∷ bits) h = omega (arith, of_bits-lt bits h.1, pow-suc 2 (length bits))
of_bits-lt (suc (suc b) ∷ bits) h = absurd (omega arith)

-- The bits that a table chooses, bits being counted from 1 at the highest.
abbrev pub chosen : List ℕ → ℕ → ℕ → List ℕ
chosen table input input_len = map (λ t. bit input (input_len - t)) table

pub chosen-All : (table : List ℕ) (input n : ℕ) → All (λ b. b < 2) (chosen table input n)
chosen-All [] input n = tt
chosen-All (t ∷ table) input n = (omega arith, chosen-All table input n)

bit_times_pow : (b m : ℕ) → b < 2 → b * 2 ^ m < 2 ^ suc m
bit_times_pow zero m h = omega (arith, one-le-pow (suc m) 2)
bit_times_pow (suc zero) m h = omega (arith, one-le-pow m 2, pow-suc 2 m)
bit_times_pow (suc (suc b)) m h = absurd (omega arith)

append_bit : (q b m : ℕ) → q * 2 ^ suc m + b * 2 ^ m ≡ (q * 2 + b) * 2 ^ m
append_bit q b m = omega (arith, twice_pow q m)

permute_loop-of_bits :
    (table : List ℕ) (table_len i input input_len q : ℕ)
    → i + length table ≡ table_len
    → permute_loop table table_len i input input_len (q * 2 ^ length table)
      ≡ q * 2 ^ length table + of_bits (chosen table input input_len)
unfolding permute_loop of_bits
permute_loop-of_bits [] table_len i input input_len q e = omega arith
permute_loop-of_bits (t ∷ table) table_len i input input_len q e =
    let m = length table in
    let b = bit input (input_len - t) in
    let place : table_len - i - 1 ≡ m = omega arith in
    let merged : bit_or (q * 2 ^ suc m) (b * 2 ^ m) ≡ (q * 2 + b) * 2 ^ m =
      bit_or-add (suc m) q (b * 2 ^ m) (bit_times_pow b m (omega arith)) ∙ append_bit q b m in
    rw (bit_and_mask 1 (input / 2 ^ (input_len - t)), place, merged)
      (permute_loop-of_bits table table_len (i + 1) input input_len (q * 2 + b) (omega arith)
        ∙ rw (length-map (λ x. bit input (input_len - x)) table) (omega (arith, append_bit q b m)))

-- `_permute` gives the number made of the bits that its table chooses.
pub permute-of_bits :
    (table : List ℕ) (input input_len : ℕ)
    → permute table input input_len ≡ of_bits (chosen table input input_len)
unfolding permute
permute-of_bits table input input_len =
    let start : 0 * 2 ^ length table ≡ 0 = omega arith in
    ap (λ (t : ℕ). permute_loop table (length table) 0 input input_len t) (sym start)
    ∙ permute_loop-of_bits table (length table) 0 input input_len 0 (omega arith)
    ∙ omega arith

pub permute-lt :
    (table : List ℕ) (input input_len : ℕ) → permute table input input_len < 2 ^ length table
permute-lt table input input_len = rw (permute-of_bits table input input_len) (
    rw (length-map (λ t. bit input (input_len - t)) table) at
      (of_bits-lt (chosen table input input_len) (chosen-All table input input_len)))

-- What stands above a bit does not change it.
bit-add_high : (j m b x : ℕ) → j < m → bit (b * 2 ^ m + x) j ≡ bit x j
bit-add_high j zero b x h = absurd (omega arith)
bit-add_high zero (suc m) b x h = omega (arith, twice_pow b m)
bit-add_high (suc j) (suc m) b x h =
    let halved : (b * 2 ^ suc m + x) / 2 ≡ b * 2 ^ m + x / 2 = omega (arith, twice_pow b m) in
    rw (div_pow_suc j (b * 2 ^ suc m + x), div_pow_suc j x, halved)
      (bit-add_high j m b (x / 2) (omega arith))

bit_top : (b m x : ℕ) → b < 2 → x < 2 ^ m → bit (b * 2 ^ m + x) m ≡ b
bit_top b zero x hb hx = omega arith
bit_top b (suc m) x hb hx =
    let halved : (b * 2 ^ suc m + x) / 2 ≡ b * 2 ^ m + x / 2 = omega (arith, twice_pow b m) in
    rw (div_pow_suc m (b * 2 ^ suc m + x), halved)
      (bit_top b m (x / 2) hb (omega (arith, pow-suc 2 m)))

-- Bit `t` of a listed number, counted from 1 at the highest.
pub bit-of_bits :
    (bits : List ℕ) (t : ℕ)
    → All (λ b. b < 2) bits
    → t < length bits
    → bit (of_bits bits) (length bits - suc t) ≡ get_or bits t 0
unfolding of_bits
bit-of_bits [] t h lt = absurd (omega arith)
bit-of_bits (b ∷ bits) zero h lt =
    let last : suc (length bits) - 1 ≡ length bits = omega arith in
    rw last (bit_top b (length bits) (of_bits bits) h.0 (of_bits-lt bits h.1))
bit-of_bits (b ∷ bits) (suc t) h lt =
    let later : suc (length bits) - suc (suc t) ≡ length bits - suc t = omega arith in
    rw later (
      bit-add_high (length bits - suc t) (length bits) b (of_bits bits) (omega arith)
      ∙ bit-of_bits bits t h.1 (omega arith))

-- `m - 1`, …, `0`.
abbrev pub down : ℕ → List ℕ
down zero = []
down (suc m) = m ∷ down m

length-down : (m : ℕ) → length (down m) ≡ m
length-down zero = refl
length-down (suc m) = ap suc (length-down m)

mod_top : (m n : ℕ) → n % 2 ^ suc m ≡ bit n m * 2 ^ m + n % 2 ^ m
mod_top zero n = omega arith
mod_top (suc m) n = omega (
  arith,
  mod_pow_suc (suc m) n,
  mod_pow_suc m n,
  mod_top m (n / 2),
  div_pow_suc m n,
  ap (λ (t : ℕ). t % 2 * 2 ^ suc m) (div_pow_suc m n),
  twice_pow (bit (n / 2) m) m,
)

of_bits_all : (m n : ℕ) → of_bits (map (bit n) (down m)) ≡ n % 2 ^ m
unfolding of_bits
of_bits_all zero n = omega arith
of_bits_all (suc m) n =
    rw (length-map (bit n) (down m), length-down m) (omega (arith, of_bits_all m n, mod_top m n))

get_or-map :
    (g : ℕ → ℕ) (xs : List ℕ) (i : ℕ) → i < length xs → get_or (map g xs) i 0 ≡ g (get_or xs i 0)
get_or-map g [] i h = absurd (omega arith)
get_or-map g (x ∷ xs) zero h = refl
get_or-map g (x ∷ xs) (suc i) h = get_or-map g xs i (omega arith)

-- Where the outer table looks, as bits of the inner table's input.
abbrev pub through : List ℕ → List ℕ → ℕ → List ℕ
through outer inner n = map (λ t. n - get_or inner (t - 1) 0) outer

abbrev pub IsTable : ℕ → List ℕ → Type 0
IsTable n = All (λ t. (1 ≤ t) × (t ≤ n))

chosen-chosen :
    (outer inner : List ℕ) (m n : ℕ)
    → length inner ≡ n
    → IsTable n outer
    → chosen outer (of_bits (chosen inner m n)) n ≡ map (bit m) (through outer inner n)
chosen-chosen [] inner m n e h = refl
chosen-chosen (zero ∷ outer) inner m n e h = absurd (omega arith)
chosen-chosen (suc t ∷ outer) inner m n e h =
    let bits = chosen inner m n in
    let wide : length bits ≡ n = length-map (λ x. bit m (n - x)) inner ∙ e in
    let first : bit (of_bits bits) (n - suc t) ≡ bit m (n - get_or inner t 0) =
      rw wide at (bit-of_bits bits t (chosen-All inner m n) (rw wide h.0.1))
      ∙ get_or-map (λ x. bit m (n - x)) inner t (rw e h.0.1) in
    let index : suc t - 1 ≡ t = omega arith in
    rw index (ap₂ ◌∷◌ first (chosen-chosen outer inner m n e h.1))

-- A table undoes another when it reads the places `n`, …, `1` through it.
pub permute-permute :
    (outer inner : List ℕ) (m n : ℕ)
    → length inner ≡ n
    → IsTable n outer
    → through outer inner n ≡ down n
    → m < 2 ^ n
    → permute outer (permute inner m n) n ≡ m
permute-permute outer inner m n e h undo small =
    permute-of_bits outer (permute inner m n) n
    ∙ ap (λ (t : ℕ). of_bits (chosen outer t n)) (permute-of_bits inner m n)
    ∙ ap of_bits (chosen-chosen outer inner m n e h)
    ∙ ap (λ (t : List ℕ). of_bits (map (bit m) t)) undo
    ∙ of_bits_all n m
    ∙ mod-eq_of_lt small
