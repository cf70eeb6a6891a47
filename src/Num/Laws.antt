-- ===== src/Num/Laws.antt =====
-- Which numbers player/src/numstr.c reads.
use lavender.Base.{
  ℕ, ◌+◌, ◌-◌, ◌*◌, ◌/◌, ◌%◌, ◌^◌, ◌≤◌, ◌<◌, ◌≡◌, refl, ◌∙◌, Bool, true, false, arith, ltb,
}
use lavender.Base.{[], ◌∷◌, ◌++◌, some, Bytes, All, u8, leb, bit_or, if◌then◌else◌}
use lavender.Bits.Fields.{bit_or-add}
use lavender.Sld.Numbers.{isspace, isdigit}
use lavender.Enc.Keys.{hex_digit}
use lavender.Num.{
  isxdigit, digxform_10, digxform_16, rstrtoull_loop, skip_space, rstrtoull, xtob_digit, xtob,
}

-- What digits make of a number, one after the other.
unfoldable pub spell : (ℕ → ℕ → ℕ) → ℕ → Bytes → ℕ
spell next out [] = out
spell next out (c ∷ cs) = spell next (next out c) cs

-- The value of a hexadecimal digit of either case.
abbrev pub xdigit : ℕ → ℕ
xdigit c = if leb 97 c then c - 87 else if leb 65 c then c - 55 else c - 48

-- The numbers that decimal and hexadecimal digits spell.
abbrev pub decimal : Bytes → ℕ
decimal cs = spell (λ n c. n * 10 + (c - 48)) 0 cs

abbrev pub hexadecimal : Bytes → ℕ
hexadecimal cs = spell (λ n c. n * 16 + xdigit c) 0 cs

abbrev pub IsXdigit : ℕ → Type 0
IsXdigit c = isxdigit c ≡ true

abbrev pub IsDigit : ℕ → Type 0
IsDigit c = isdigit c ≡ true

abbrev pub IsSpace : ℕ → Type 0
IsSpace c = isspace c ≡ true

module _ (next : ℕ → ℕ → ℕ) (grows : (n c : ℕ) → n ≤ next n c) where
  spell-grows : (out : ℕ) (cs : Bytes) → out ≤ spell next out cs
  unfolding spell
  spell-grows out [] = omega arith
  spell-grows out (c ∷ cs) = omega (arith, spell-grows (next out c) cs, grows out c)

  rstrtoull_loop-spell :
      (condition : ℕ → Bool) (digxform : ℕ → ℕ → ℕ)
      → ((c n : ℕ) → condition c ≡ true → next n c < 2 ^ 64 → digxform c n ≡ next n c)
      → (cs : Bytes) (c : ℕ) (rest : Bytes) (out : ℕ) → All (λ d. condition d ≡ true) cs
      → condition c ≡ false
      → spell next out cs < 2 ^ 64
      → rstrtoull_loop condition digxform (cs ++ c ∷ rest) out ≡ some (spell next out cs)
  unfolding spell rstrtoull_loop
  rstrtoull_loop-spell condition digxform exact [] c rest out h stop fits = rw stop refl
  rstrtoull_loop-spell condition digxform exact (d ∷ cs) c rest out (is, h) stop fits =
      let small : next out d < 2 ^ 64 = omega (arith, spell-grows (next out d) cs) in
      let same = exact d out is small in
      let more : ltb (next out d) out ≡ false = ground (arith, grows out d) in
      rw (is, same, more)
        (rstrtoull_loop-spell condition digxform exact cs c rest (next out d) h stop fits)

skip_space-run :
    (spaces : Bytes) (c : ℕ) (rest : Bytes)
    → All IsSpace spaces
    → isspace c ≡ false
    → skip_space (spaces ++ c ∷ rest) ≡ some (c ∷ rest)
unfolding skip_space
skip_space-run [] c rest h stop = rw stop refl
skip_space-run (s ∷ spaces) c rest (is, h) stop = rw is (skip_space-run spaces c rest h stop)

digxform_10-exact :
    (c n : ℕ) → isdigit c ≡ true → n * 10 + (c - 48) < 2 ^ 64 → digxform_10 c n ≡ n * 10 + (c - 48)
unfolding digxform_10
digxform_10-exact c n is h = omega arith

digxform_16-exact :
    (c n : ℕ) → isxdigit c ≡ true → n * 16 + xdigit c < 2 ^ 64 → digxform_16 c n ≡ n * 16 + xdigit c
unfolding digxform_16 isxdigit isdigit
digxform_16-exact c n is h = ground arith

xdigit_not_space : (c : ℕ) → isxdigit c ≡ true → isspace c ≡ false
unfolding isxdigit isdigit isspace
xdigit_not_space c h = ground arith

digit_not_space : (c : ℕ) → isdigit c ≡ true → isspace c ≡ false
unfolding isdigit isspace
digit_not_space c h = ground arith

-- `rstrtoull` in base ten reads the number that digits spell, with white space before them, up to the first
-- character that is no digit, where the number fits 64 bits.
pub rstrtoull-decimal :
    (spaces : Bytes) (d : ℕ) (ds : Bytes) (c : ℕ) (rest : Bytes)
    → All IsSpace spaces
    → All IsDigit (d ∷ ds)
    → isdigit c ≡ false
    → decimal (d ∷ ds) < 2 ^ 64
    → rstrtoull (spaces ++ (d ∷ ds ++ c ∷ rest)) 10 ≡ some (decimal (d ∷ ds))
unfolding rstrtoull
rstrtoull-decimal spaces d ds c rest spaces_is is stop fits =
    let skipped = skip_space-run spaces d (ds ++ c ∷ rest) spaces_is (digit_not_space d is.0) in
    let run =
      rstrtoull_loop-spell (λ n c. n * 10 + (c - 48)) (λ n c. omega arith) isdigit digxform_10
        digxform_10-exact (d ∷ ds) c rest 0 is stop fits in
    rw (skipped, rstrtoull) run

-- `rstrtoull` in base 16 reads the number that digits spell, with white space before them, up to the first
-- character that is no digit, where the number fits 64 bits.
pub rstrtoull-hexadecimal :
    (spaces : Bytes) (d : ℕ) (ds : Bytes) (c : ℕ) (rest : Bytes)
    → All IsSpace spaces
    → All IsXdigit (d ∷ ds)
    → isxdigit c ≡ false
    → hexadecimal (d ∷ ds) < 2 ^ 64
    → rstrtoull (spaces ++ (d ∷ ds ++ c ∷ rest)) 16 ≡ some (hexadecimal (d ∷ ds))
unfolding rstrtoull
rstrtoull-hexadecimal spaces d ds c rest spaces_is is stop fits =
    let skipped = skip_space-run spaces d (ds ++ c ∷ rest) spaces_is (xdigit_not_space d is.0) in
    let run =
      rstrtoull_loop-spell (λ n c. n * 16 + xdigit c) (λ n c. omega arith) isxdigit digxform_16
        digxform_16-exact (d ∷ ds) c rest 0 is stop fits in
    rw (skipped, rstrtoull) run

hex_digit-xtob : (d : ℕ) → d < 16 → (isxdigit (hex_digit d) ≡ true) × (xtob_digit (hex_digit d) ≡ d)
unfolding isxdigit isdigit xtob_digit
hex_digit-xtob d h = (ground arith, ground arith)

-- `xtob` reads back the two digits that a byte is printed in, whatever follows.
pub xtob-hex_digit :
    (b : ℕ) (rest : Bytes)
    → b < 256
    → xtob (hex_digit (b / 16) ∷ hex_digit (b % 16) ∷ rest) ≡ some b
unfolding xtob
xtob-hex_digit b rest h =
    let (high, high_is) = hex_digit-xtob (b / 16) (omega arith) in
    let (low, low_is) = hex_digit-xtob (b % 16) (omega arith) in
    let joined : bit_or (b / 16 * 2 ^ 4) (b % 16) ≡ b =
      bit_or-add 4 (b / 16) (b % 16) (omega arith) ∙ omega arith in
    let small : u8 b ≡ b = omega arith in rw (high, low, high_is, low_is, joined, small) refl

pub hex_digit-IsXdigit : (d : ℕ) → d < 16 → IsXdigit (hex_digit d) × (xdigit (hex_digit d) ≡ d)
unfolding isxdigit isdigit
hex_digit-IsXdigit d h = (ground arith, ground arith)
