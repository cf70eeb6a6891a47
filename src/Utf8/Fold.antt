-- ===== src/Utf8/Fold.antt =====
-- `_fold_case`.
use lavender.Base.{ℕ, ◌+◌, ◌≤◌, ◌<◌, ◌≡◌, refl, List, [], ◌∷◌, none, All, arith, true}
use lavender.Base.{leb, ◌==◌, Bool, ◌&&◌, if◌then◌else◌, ◌⊎◌, inl, inr}
use lavender.Bits.Fields.{check_below, check_below_sound}
use lavender.Utf8.Tables.{folding_single, folding_double}
use lavender.Utf8.{fold_case, fold_by_table, find_single, find_double}

-- Folding leaves this code point as it is.
is_folded : ℕ → Bool
is_folded cp = let pair = fold_case cp in pair.0 == cp && pair.1 == 0

-- Checked where the tables and the ranges reach; what they map to beyond is checked as well.
folded_table : check_below 0x250 (λ cp. is_folded (fold_case cp).0) ≡ true
unfolding check_below is_folded fold_case fold_by_table find_single find_double
folded_table = refl

is_folded_lem : (cp : ℕ) → is_folded cp ≡ true → fold_case cp ≡ (cp, 0)
unfolding is_folded
is_folded_lem cp h = ground arith

find_single_above :
    (cp : ℕ) (table : List (ℕ × ℕ))
    → All (λ entry. entry.0 < 0x250) table
    → 0x250 ≤ cp
    → find_single cp table ≡ none
unfolding find_single
find_single_above cp [] h p = refl
find_single_above cp ((from, to) ∷ table) h p = ground (arith, find_single_above cp table h.1 p)

find_double_above :
    (cp : ℕ) (table : List (ℕ × ℕ × ℕ))
    → All (λ entry. entry.0 < 0x250) table
    → 0x250 ≤ cp
    → find_double cp table ≡ none
unfolding find_double
find_double_above cp [] h p = refl
find_double_above cp ((from, to, next) ∷ table) h p =
    ground (arith, find_double_above cp table h.1 p)

single_below : All (λ entry. entry.0 < 0x250) folding_single
single_below = omega arith

double_below : All (λ entry. entry.0 < 0x250) folding_double
double_below = omega arith

fold_by_table_above : (cp : ℕ) → 0x250 ≤ cp → fold_by_table cp ≡ (cp, 0)
unfolding fold_by_table
fold_by_table_above cp h =
    rw (find_single_above cp folding_single single_below h, fold_by_table)
      (rw (find_double_above cp folding_double double_below h) refl)

-- From 0x250 on nothing is folded.
pub fold_case_above : (cp : ℕ) → 0x250 ≤ cp → fold_case cp ≡ (cp, 0)
unfolding fold_case
fold_case_above cp h = ground (arith, fold_by_table_above cp h)

fold_case_twice_cases :
    (cp : ℕ) → (cp < 0x250) ⊎ (0x250 ≤ cp) → fold_case (fold_case cp).0 ≡ ((fold_case cp).0, 0)
fold_case_twice_cases cp (inl h) =
    is_folded_lem (fold_case cp).0 (check_below_sound 0x250 _ cp folded_table h)
fold_case_twice_cases cp (inr h) = simp (fold_case_above cp h)

-- Folding is idempotent: the first code point of a folding folds to itself alone.
pub fold_case_twice : (cp : ℕ) → fold_case (fold_case cp).0 ≡ ((fold_case cp).0, 0)
fold_case_twice cp = fold_case_twice_cases cp (omega arith)

-- Below 0xC0 folding is the lower-casing of ASCII letters, and nothing else.
pub fold_case_ascii :
    (cp : ℕ) → cp < 0xC0 → fold_case cp ≡ (if leb b'A' cp && leb cp b'Z' then cp + 32 else cp, 0)
unfolding fold_case
fold_case_ascii cp h = ground arith
