-- ===== src/Key/Pkey/Validated.antt =====
-- Keys that the format check accepts: the decoders read no byte behind them.
use lavender.Base.{ℕ, zero, suc, ◌+◌, ◌%◌, ◌^◌, ◌≤◌, ◌<◌, ◌≡◌, refl, ap, ap₂, sym, ◌∙◌, true, false}
use lavender.Base.{[], ◌∷◌, ◌++◌, Option, some, Bytes, All, length, ◌==◌, arith}
use lavender.Base.{inl, inr, Bool-cases}
use mathlib.Core.List.{append-nil}
use lavender.Key.Pkey.{
  hyphen, is_letter, remove_loop, remove_hyphens, validate_loop, pkey25_validate_format,
  pkey25raw_decode, aatoull_loop, alphabet, base, and_then, read_parts,
}
use lavender.Key.Pkey.Letters.{IsLetter, is_letter-IsLetter, aatoull_loop_bound, read_parts-append}

-- The letters among the `left` characters from the index `i` on.
unfoldable letters_left : ℕ → ℕ → ℕ
letters_left zero i = 0
letters_left (suc left) i = elim (5 == i % 6) [
  | true ↦ letters_left left (i + 1)
  | false ↦ suc (letters_left left (i + 1))
]

-- The hyphens taken out, `count` letters are left.
abbrev Letters : ℕ → Bytes → Type 0
Letters count key =
    (cs : Bytes) × (remove_loop count key ≡ some cs) × (length cs ≡ count) × All IsLetter cs

pub remove_loop-hyphen :
    (n : ℕ) (key cs : Bytes) → remove_loop n key ≡ some cs → remove_loop n (hyphen ∷ key) ≡ some cs
unfolding remove_loop
remove_loop-hyphen zero key cs h = h
remove_loop-hyphen (suc n) key cs h = h

pub remove_loop-letter :
    (n c : ℕ) (key cs : Bytes)
    → IsLetter c
    → remove_loop n key ≡ some cs
    → remove_loop (suc n) (c ∷ key) ≡ some (c ∷ cs)
unfolding remove_loop
remove_loop-letter n c key cs (plain, ok, place) h =
    let other : (hyphen == c) ≡ false = ground arith in ground arith

-- One round of the check, at a hyphen and at a letter.
validate_loop-hyphen :
    (left i c : ℕ) (key : Bytes)
    → (5 == i % 6) ≡ true
    → validate_loop (suc left) i (c ∷ key) ≡ some true
    → (c ≡ hyphen) × (validate_loop left (i + 1) key ≡ some true)
unfolding validate_loop
validate_loop-hyphen left i c key group h = elim (Bool-cases (hyphen == c)) [
  | inl same ↦ (ground arith, ground arith)
  | inr other ↦ absurd (ground arith)
]

validate_loop-letter :
    (left i c : ℕ) (key : Bytes)
    → (5 == i % 6) ≡ false
    → validate_loop (suc left) i (c ∷ key) ≡ some true
    → (is_letter c ≡ true) × (validate_loop left (i + 1) key ≡ some true)
unfolding validate_loop
validate_loop-letter left i c key inside h = elim (Bool-cases (is_letter c)) [
  | inl ok ↦ (ok, ground arith)
  | inr bad ↦ absurd (ground arith)
]

letters_left-hyphen :
    (left i : ℕ) → (5 == i % 6) ≡ true → letters_left (suc left) i ≡ letters_left left (i + 1)
unfolding letters_left
letters_left-hyphen left i group = ground arith

letters_left-letter :
    (left i : ℕ)
    → (5 == i % 6) ≡ false
    → letters_left (suc left) i ≡ suc (letters_left left (i + 1))
unfolding letters_left
letters_left-letter left i inside = ground arith

validate_loop-Letters :
    (left i : ℕ) (key : Bytes)
    → validate_loop left i key ≡ some true
    → Letters (letters_left left i) key
validate_loop-Letters zero i key h =
    unfold letters_left in ([], unfold remove_loop in refl, refl, tt)
validate_loop-Letters (suc left) i [] h = unfold validate_loop in absurd (cc h)
validate_loop-Letters (suc left) i (c ∷ key) h = elim (Bool-cases (5 == i % 6)) [
  | inl group ↦
      let (same, rest) = validate_loop-hyphen left i c key group h in
      let (cs, run, long, all) = validate_loop-Letters left (i + 1) key rest in
      rw (letters_left-hyphen left i group, same)
        (cs, remove_loop-hyphen (letters_left left (i + 1)) key cs run, long, all)
  | inr inside ↦
      let (ok, rest) = validate_loop-letter left i c key inside h in
      let (cs, run, long, all) = validate_loop-Letters left (i + 1) key rest in
      let is = is_letter-IsLetter c ok in
      rw (letters_left-letter left i inside) (
        c ∷ cs,
        remove_loop-letter (letters_left left (i + 1)) c key cs is run,
        ap suc long,
        (is, all),
      )
]

split_at :
    (n : ℕ) (cs : Bytes)
    → n ≤ length cs
    → All IsLetter cs
    → (xs ys : Bytes) × (cs ≡ xs ++ ys)
      × (length xs ≡ n)
      × (length xs + length ys ≡ length cs)
      × All IsLetter xs
      × All IsLetter ys
split_at zero cs h all = ([], cs, refl, refl, omega arith, tt, all)
split_at (suc n) [] h all = absurd (omega arith)
split_at (suc n) (c ∷ cs) h (l, all) =
    let (xs, ys, e, long, total, left, right) = split_at n cs (omega arith) all in
    (c ∷ xs, ys, ap (λ (t : Bytes). c ∷ t) e, ap suc long, omega arith, (l, left), right)

pub read_letters :
    (key cs : Bytes)
    → remove_loop 25 key ≡ some cs
    → length cs ≡ 25
    → All IsLetter cs
    → (udata ekey : ℕ) × (pkey25raw_decode key ≡ some (udata, ekey))
      × (udata < 24 ^ 13)
      × (ekey < 24 ^ 12)
read_letters key cs run long all =
    let (xs, ys, e, first, total, left, right) = split_at 13 cs (omega (arith, long)) all in
    let second : length ys ≡ 12 = omega arith in
    let p13 : 24 ^ length xs ≡ 24 ^ 13 = ap (λ (n : ℕ). 24 ^ n) first in
    let p12 : 24 ^ length ys ≡ 24 ^ 12 = ap (λ (n : ℕ). 24 ^ n) second in
    let (u, read_u, small_u) = aatoull_loop_bound xs ys 0 left (omega (arith, p13)) in
    let (v, read_v, small_v) = aatoull_loop_bound ys [] 0 right (omega (arith, p12)) in
    let parts =
      read_parts-append xs ys u v first
        (ap (λ (n : ℕ). aatoull_loop n (xs ++ ys) alphabet base 0) (sym first) ∙ read_u)
        (ap₂ (λ (n : ℕ) (t : Bytes). aatoull_loop n t alphabet base 0) (sym second)
            (sym (append-nil ys))
          ∙ read_v) in
    (
      u,
      v,
      unfold pkey25raw_decode remove_hyphens in
          ap (λ (t : Option Bytes). and_then t read_parts) (run ∙ ap some e) ∙ parts,
      omega (arith, p13),
      omega (arith, p12),
    )

-- A key that the format check accepts is decoded: no byte behind the text is read, and the two
-- numbers are below 24 to the 13th and to the 12th.
pub validated_decode :
    (key : Bytes)
    → pkey25_validate_format key ≡ some true
    → (udata ekey : ℕ) × (pkey25raw_decode key ≡ some (udata, ekey))
      × (udata < 24 ^ 13)
      × (ekey < 24 ^ 12)
unfolding pkey25_validate_format letters_left
validated_decode key h =
    let (cs, run, long, all) = validate_loop-Letters 29 0 key h in read_letters key cs run long all
