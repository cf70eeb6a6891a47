-- ===== src/Key/Pkey/Printed.antt =====
-- Keys that are printed from their two numbers, in five groups of five letters.
use lavender.Base.{ℕ, zero, suc, ◌+◌, ◌/◌, ◌%◌, ◌^◌, ◌<◌, ◌≡◌, refl, ap, sym, ◌∙◌, true, false}
use lavender.Base.{[], ◌∷◌, ◌++◌, Option, some, Bytes, All, length, ◌==◌, arith, bit_xor}
use lavender.Base.{inl, inr, Bool-cases}
use mathlib.Core.Option
use lavender.Key.Pkey.{hyphen, is_letter, remove_loop, remove_hyphens, validate_loop}
use lavender.Key.Pkey.{pkey25_validate_format, pkey25raw_decode, pkey25xor12_decode}
use native.Mathlib.Nat.{pow-suc, one-le-pow, mod-lt}
use mathlib.Core.List.{append-nil}
use lavender.Key.Pkey.Validated.{remove_loop-hyphen, remove_loop-letter}
use lavender.Key.Pkey.{aatoull_loop, alphabet, base, and_then, read_parts}
use lavender.Key.Pkey.Letters.{
  IsLetter, is_letter-IsLetter, letter, letter_lem, digits, digit_lt, aatoull_loop-digits_whole,
  read_parts-append,
}
use lavender.Cipher.Des.Expand.{expand56}

-- The letters with hyphens between the groups; `column` letters stand in the group already.
unfoldable pub hyphenate : ℕ → Bytes → Bytes
hyphenate column [] = []
hyphenate column (c ∷ cs) = elim (column == 5) [
  | true ↦ hyphen ∷ c ∷ hyphenate 1 cs
  | false ↦ c ∷ hyphenate (column + 1) cs
]

unfoldable pub print_key : ℕ → ℕ → Bytes
print_key udata ekey = hyphenate 0 (digits 13 udata ++ digits 12 ekey) ++ 0 ∷ []

length-digits : (count n : ℕ) → length (digits count n) ≡ count
unfolding digits
length-digits zero n = refl
length-digits (suc count) n = ap suc (length-digits count (n % 24 ^ count))

digits-IsLetter : (count n : ℕ) → n < 24 ^ count → All IsLetter (digits count n)
unfolding digits
digits-IsLetter zero n h = tt
digits-IsLetter (suc count) n h = (
  is_letter-IsLetter (letter (n / 24 ^ count)) (
      (letter_lem (n / 24 ^ count) (
        digit_lt (24 ^ count) n (one-le-pow count 24 (omega arith))
          (omega (arith, pow-suc 24 count)))).0),
  digits-IsLetter count (n % 24 ^ count) (mod-lt n (one-le-pow count 24 (omega arith))),
)

All-append : (xs ys : Bytes) → All IsLetter xs → All IsLetter ys → All IsLetter (xs ++ ys)
All-append [] ys h k = k
All-append (x ∷ xs) ys (p, h) k = (p, All-append xs ys h k)

hyphenate-full :
    (column c : ℕ) (cs : Bytes)
    → (column == 5) ≡ true
    → hyphenate column (c ∷ cs) ≡ hyphen ∷ c ∷ hyphenate 1 cs
unfolding hyphenate
hyphenate-full column c cs full = ground arith

hyphenate-room :
    (column c : ℕ) (cs : Bytes)
    → (column == 5) ≡ false
    → hyphenate column (c ∷ cs) ≡ c ∷ hyphenate (column + 1) cs
unfolding hyphenate
hyphenate-room column c cs room = ground arith

remove_loop-hyphenate :
    (column : ℕ) (cs rest : Bytes)
    → All IsLetter cs
    → remove_loop (length cs) (hyphenate column cs ++ rest) ≡ some cs
remove_loop-hyphenate column [] rest h = unfold remove_loop in refl
remove_loop-hyphenate column (c ∷ cs) rest (p, h) = elim (Bool-cases (column == 5)) [
  | inl full ↦
      ap (λ (t : Bytes). remove_loop (suc (length cs)) (t ++ rest))
        (hyphenate-full column c cs full)
      ∙ remove_loop-hyphen (suc (length cs)) (c ∷ hyphenate 1 cs ++ rest) (c ∷ cs) (
          remove_loop-letter (length cs) c (hyphenate 1 cs ++ rest) cs p
            (remove_loop-hyphenate 1 cs rest h))
  | inr room ↦
      ap (λ (t : Bytes). remove_loop (suc (length cs)) (t ++ rest))
        (hyphenate-room column c cs room)
      ∙ remove_loop-letter (length cs) c (hyphenate (column + 1) cs ++ rest) cs p
          (remove_loop-hyphenate (column + 1) cs rest h)
]

-- One round of the check, which accepts the character.
validate_loop-hyphen_ok :
    (left i : ℕ) (key : Bytes)
    → (5 == i % 6) ≡ true
    → validate_loop (suc left) i (hyphen ∷ key) ≡ validate_loop left (i + 1) key
unfolding validate_loop
validate_loop-hyphen_ok left i key group = ground arith

validate_loop-letter_ok :
    (left i c : ℕ) (key : Bytes)
    → (5 == i % 6) ≡ false
    → is_letter c ≡ true
    → validate_loop (suc left) i (c ∷ key) ≡ validate_loop left (i + 1) key
unfolding validate_loop
validate_loop-letter_ok left i c key inside ok = ground arith

validate_loop-end : (left i : ℕ) → left ≡ 0 → i ≡ 29 → validate_loop left i (0 ∷ []) ≡ some true
unfolding validate_loop
validate_loop-end left i a b = rw (a, b) refl

-- The number of characters with hyphens.
unfoldable width : ℕ → Bytes → ℕ
width column [] = 0
width column (c ∷ cs) = elim (column == 5) [
  | true ↦ 2 + width 1 cs
  | false ↦ 1 + width (column + 1) cs
]

width-full :
    (column c : ℕ) (cs : Bytes)
    → (column == 5) ≡ true
    → width column (c ∷ cs) ≡ suc (suc (width 1 cs))
unfolding width
width-full column c cs full = ground arith

width-room :
    (column c : ℕ) (cs : Bytes)
    → (column == 5) ≡ false
    → width column (c ∷ cs) ≡ suc (width (column + 1) cs)
unfolding width
width-room column c cs room = ground arith

validate_loop-hyphenate :
    (column : ℕ) (cs : Bytes) (i : ℕ)
    → All IsLetter cs
    → i % 6 ≡ column
    → i + width column cs ≡ 29
    → validate_loop (width column cs) i (hyphenate column cs ++ 0 ∷ []) ≡ some true
validate_loop-hyphenate column [] i h at total =
    unfold hyphenate in
    validate_loop-end (width column []) i (unfold width in refl)
      (unfold width in omega (arith, total))
validate_loop-hyphenate column (c ∷ cs) i ((plain, ok, place), h) at total =
    elim (Bool-cases (column == 5)) [
      | inl full ↦
          let at5 : column ≡ 5 = ground arith in
          rw (hyphenate-full column c cs full, width-full column c cs full)
            (validate_loop-hyphen_ok (suc (width 1 cs)) i (c ∷ hyphenate 1 cs ++ 0 ∷ [])
                (ground arith)
              ∙ validate_loop-letter_ok (width 1 cs) (i + 1) c (hyphenate 1 cs ++ 0 ∷ [])
                  (ground arith) ok
              ∙ validate_loop-hyphenate 1 cs (i + 1 + 1) h (omega arith)
                  (omega (arith, total, width-full column c cs full)))
      | inr room ↦
          rw (hyphenate-room column c cs room, width-room column c cs room)
            (validate_loop-letter_ok (width (column + 1) cs) i c
                (hyphenate (column + 1) cs ++ 0 ∷ []) (ground arith) ok
              ∙ validate_loop-hyphenate (column + 1) cs (i + 1) h (ground arith)
                  (omega (arith, total, width-room column c cs room)))
    ]

-- A key that is printed from two numbers is accepted by the format check, and decoded to them.
pub print_key-decode :
    (udata ekey : ℕ)
    → udata < 24 ^ 13
    → ekey < 24 ^ 12
    → (pkey25_validate_format (print_key udata ekey) ≡ some true)
      × (pkey25raw_decode (print_key udata ekey) ≡ some (udata, ekey))
      × (pkey25xor12_decode (print_key udata ekey) ≡ some (expand56 (bit_xor ekey udata)))
print_key-decode udata ekey u e =
    let cs = digits 13 udata ++ digits 12 ekey in
    let all =
      All-append (digits 13 udata) (digits 12 ekey) (digits-IsLetter 13 udata u)
        (digits-IsLetter 12 ekey e) in
    let run : remove_loop 25 (print_key udata ekey) ≡ some cs =
      unfold print_key digits in remove_loop-hyphenate 0 cs (0 ∷ []) all in
    let second : aatoull_loop 12 (digits 12 ekey) alphabet base 0 ≡ some ekey =
      ap (λ (t : Bytes). aatoull_loop 12 t alphabet base 0) (sym (append-nil (digits 12 ekey)))
      ∙ aatoull_loop-digits_whole 12 ekey [] e (omega arith) in
    let parts : read_parts cs ≡ some (udata, ekey) =
      read_parts-append (digits 13 udata) (digits 12 ekey) udata ekey (length-digits 13 udata)
        (aatoull_loop-digits_whole 13 udata (digits 12 ekey) u (omega arith)) second in
    let both : and_then (remove_loop 25 (print_key udata ekey)) read_parts ≡ some (udata, ekey) =
      ap (λ (t : Option Bytes). and_then t read_parts) run ∙ parts in
    (
      (unfold pkey25_validate_format print_key digits hyphenate width in
          validate_loop-hyphenate 0 cs 0 all refl refl),
      (unfold pkey25raw_decode remove_hyphens in both),
      (unfold pkey25xor12_decode remove_hyphens in
          ap (Option.map (λ ((l, r) : ℕ × ℕ). expand56 (bit_xor r l))) both),
    )
