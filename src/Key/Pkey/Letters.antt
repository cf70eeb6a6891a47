-- ===== src/Key/Pkey/Letters.antt =====
-- Texts of the key alphabet as numbers of base 24.
use native.Mathlib.Nat.{pow-zero, pow-suc, one-le-pow, mul-le-mul, div-lt_iff_lt-mul, div-add-mod}
use lavender.Base.{
  ℕ, zero, suc, ◌+◌, ◌*◌, ◌/◌, ◌%◌, ◌^◌, ◌≤◌, ◌<◌, ◌≡◌, refl, ap, sym, ◌∙◌, Bool, true, false,
}
use lavender.Base.{
  [], ◌∷◌, ◌++◌, Option, some, none, Bytes, drop, drop-append, All, length, get_or, u64, ◌==◌, ◌&&◌,
  arith,
}
use lavender.Base.{inl, inr, Option-cases, Bool-cases, ◌≢◌}
use lavender.Bits.Fields.{check_below, check_below_sound}
use lavender.Key.Pkey.{
  alphabet, base, hyphen, strchr, aatoull_loop, aatoull, is_letter, read_parts, left_length,
  right_length,
}

-- A character of the alphabet: not the terminator, and with a place that `strchr` finds.
abbrev pub IsLetter : ℕ → Type 0
IsLetter c =
    (c ≢ hyphen) × (is_letter c ≡ true) × ((pos : ℕ) × (strchr alphabet c ≡ some pos) × (pos < 24))

strchr-lt : (text : Bytes) (c pos : ℕ) → c ≢ 0 → strchr text c ≡ some pos → pos < length text
unfolding strchr
strchr-lt [] c pos n e = ground arith
strchr-lt (a ∷ text) c pos n e = elim (Bool-cases (a == c)) [
  | inl same ↦ ground arith
  | inr other ↦ elim (Option-cases (strchr text c)) [
    | inl absent ↦ ground arith
    | inr (p, found) ↦ let lt = strchr-lt text c p n found in ground arith
  ]
]

no_hyphen : strchr alphabet hyphen ≡ none
unfolding strchr
no_hyphen = refl

-- What the check accepts is a letter.
pub is_letter-IsLetter : (c : ℕ) → is_letter c ≡ true → IsLetter c
unfolding is_letter
is_letter-IsLetter c h = elim (Bool-cases (0 == c)) [
  | inl end ↦ absurd (ground arith)
  | inr more ↦ elim (Option-cases (strchr alphabet c)) [
    | inl absent ↦ absurd (ground arith)
    | inr (pos, found) ↦ (
      (λ e. cc (rw e at found, no_hyphen)),
      h,
      (pos, found, strchr-lt alphabet c pos (ground arith) found),
    )
  ]
]

-- The letter of a digit.
abbrev pub letter : ℕ → ℕ
letter d = get_or alphabet d 0

letter_test : ℕ → Bool
letter_test d =
    is_letter (letter d) && elim (strchr alphabet (letter d)) [ none ↦ false | some pos ↦ pos == d ]

letters_all : check_below 24 letter_test ≡ true
unfolding check_below letter_test is_letter strchr
letters_all = refl

letter_parts :
    (d : ℕ) (found : Option ℕ) (ok : Bool)
    → (ok && elim found [ none ↦ false | some pos ↦ pos == d ]) ≡ true
    → (ok ≡ true) × (found ≡ some d)
letter_parts d none ok h = ground arith
letter_parts d (some pos) ok h = ground arith

pub letter_lem :
    (d : ℕ) → d < 24 → (is_letter (letter d) ≡ true) × (strchr alphabet (letter d) ≡ some d)
unfolding letter_test
letter_lem d h =
    letter_parts d (strchr alphabet (letter d)) (is_letter (letter d))
      (check_below_sound 24 letter_test d letters_all h)

aatoull_loop-letter :
    (left c ret pos : ℕ) (str : Bytes)
    → strchr alphabet c ≡ some pos
    → aatoull_loop (suc left) (c ∷ str) alphabet base ret
      ≡ aatoull_loop left str alphabet base (u64 (u64 (ret * base) + pos))
unfolding aatoull_loop
aatoull_loop-letter left c ret pos str found = ground arith

-- Bounds on a digit in front of `k` others, where `p` is 24 to the `k`.
digit_bound : (p ret pos v : ℕ) → pos < 24 → v < (ret * 24 + pos + 1) * p → v < (ret + 1) * (p * 24)
digit_bound p ret pos v lt h =
    let room : (pos + 1) * p ≤ 24 * p = mul-le-mul (omega arith) (omega arith) in omega arith

digit_fits : (p ret pos m : ℕ) → 1 ≤ p → (ret * 24 + pos) * p + m < 2 ^ 64 → ret * 24 + pos < 2 ^ 64
digit_fits p ret pos m one h =
    let wide : (ret * 24 + pos) * 1 ≤ (ret * 24 + pos) * p = mul-le-mul (omega arith) one in
    omega arith

no_wrap : (x pos : ℕ) → x + pos < 2 ^ 64 → u64 (u64 x + pos) ≡ x + pos
no_wrap x pos h = omega arith

-- Letters are read as a number, which grows by a factor of 24 for each.
pub aatoull_loop_bound :
    (str rest : Bytes) (ret : ℕ)
    → All IsLetter str
    → (ret + 1) * 24 ^ length str ≤ 2 ^ 64
    → (v : ℕ) × (aatoull_loop (length str) (str ++ rest) alphabet base ret ≡ some v)
      × (v < (ret + 1) * 24 ^ length str)
unfolding aatoull_loop
aatoull_loop_bound [] rest ret h room = (ret, refl, omega (arith, pow-zero 24))
aatoull_loop_bound (c ∷ str) rest ret ((plain, ok, (pos, found, lt)), h) room =
    let p = 24 ^ length str in
    let more = ap (λ (t : ℕ). (ret + 1) * t) (pow-suc 24 (length str)) in
    let wide : (pos + 1) * p ≤ 24 * p = mul-le-mul (omega arith) (omega arith) in
    let room' : (ret * 24 + pos + 1) * p ≤ 2 ^ 64 = omega (arith, more) in
    let one : 1 ≤ p = one-le-pow (length str) 24 (omega arith) in
    let small : ret * 24 + pos < 2 ^ 64 = digit_fits p ret pos 0 one (omega (arith, room', one)) in
    let (v, run, bound) = aatoull_loop_bound str rest (ret * 24 + pos) h room' in
    (
      v,
      aatoull_loop-letter (length str) c ret pos (str ++ rest) found
          ∙ ap (aatoull_loop (length str) (str ++ rest) alphabet base)
              (no_wrap (ret * 24) pos small)
          ∙ run,
      omega (arith, more, digit_bound p ret pos v lt bound),
    )

-- The letters of a number, the highest digit first.
unfoldable pub digits : ℕ → ℕ → Bytes
digits zero n = []
digits (suc count) n = letter (n / 24 ^ count) ∷ digits count (n % 24 ^ count)

pub digit_lt : (p n : ℕ) → 1 ≤ p → n < p * 24 → n / p < 24
digit_lt p n one h = (div-lt_iff_lt-mul {k = p} {x = n} {y = 24} one).1 (omega arith)

pub aatoull_loop-digits :
    (count n ret : ℕ) (rest : Bytes)
    → n < 24 ^ count
    → ret * 24 ^ count + n < 2 ^ 64
    → aatoull_loop count (digits count n ++ rest) alphabet base ret ≡ some (ret * 24 ^ count + n)
unfolding digits aatoull_loop
aatoull_loop-digits zero n ret rest fits room = ap some (omega arith)
aatoull_loop-digits (suc count) n ret rest fits room =
    let p = 24 ^ count in
    let d = n / p in
    let one : 1 ≤ p = one-le-pow count 24 (omega arith) in
    let lt : d < 24 = digit_lt p n one (omega (arith, pow-suc 24 count)) in
    let same : ret * 24 ^ suc count + n ≡ (ret * 24 + d) * p + n % p =
      omega (arith, ap (λ (t : ℕ). ret * t) (pow-suc 24 count), div-add-mod n p) in
    let small : ret * 24 + d < 2 ^ 64 =
      digit_fits p ret d (n % p) one (omega (arith, same, room)) in
    aatoull_loop-letter count (letter d) ret d (digits count (n % p) ++ rest) ((letter_lem d lt).1)
    ∙ ap (aatoull_loop count (digits count (n % p) ++ rest) alphabet base)
        (no_wrap (ret * 24) d small)
    ∙ aatoull_loop-digits count (n % p) (ret * 24 + d) rest (omega arith)
        (omega (arith, same, room))
    ∙ ap some (sym same)

pub aatoull_loop-digits_whole :
    (count n : ℕ) (rest : Bytes)
    → n < 24 ^ count
    → n < 2 ^ 64
    → aatoull_loop count (digits count n ++ rest) alphabet base 0 ≡ some n
aatoull_loop-digits_whole count n rest fits room =
    aatoull_loop-digits count n 0 rest fits (omega arith) ∙ ap some (omega arith)

read_parts-of :
    (pkey : Bytes) (u e : ℕ)
    → aatoull pkey left_length alphabet base ≡ some u
    → aatoull (drop left_length pkey) right_length alphabet base ≡ some e
    → read_parts pkey ≡ some (u, e)
unfolding read_parts
read_parts-of pkey u e first second = ground arith

-- The two parts of a key are read one behind the other.
pub read_parts-append :
    (left right : Bytes) (u e : ℕ)
    → length left ≡ left_length
    → aatoull_loop left_length (left ++ right) alphabet base 0 ≡ some u
    → aatoull_loop right_length right alphabet base 0 ≡ some e
    → read_parts (left ++ right) ≡ some (u, e)
unfolding aatoull
read_parts-append left right u e long first second =
    let behind : drop left_length (left ++ right) ≡ right =
      ap (λ (n : ℕ). drop n (left ++ right)) (sym long) ∙ drop-append left right in
    read_parts-of (left ++ right) u e first
      (ap (λ (t : Bytes). aatoull t right_length alphabet base) behind ∙ second)
