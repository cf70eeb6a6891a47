-- ===== src/Tests/Texts.antt =====
-- Concrete runs of player/src/pal/utf8.c.
use lavender.Base.{ℕ, ◌≡◌, refl, some, codes, ◌++◌, ◌∷◌, [], List, arith}
use lavender.Base.{Option, length, inl, inr}
use lavender.Utf8.{get_codepoint, get_sequence, point, strlen, fold_case}
use lavender.Utf8.Decode.{get_codepoint-get_sequence}
use lavender.Utf8.Fold.{fold_case_twice, fold_case_ascii}
use lavender.Utf8.Terminated.{strlen_total}

get_codepoint-get_sequence_example :
    get_codepoint (get_sequence 0x20AC ++ codes "rest")
    ≡ some (point 0x20AC (length (get_sequence 0x20AC)))
get_codepoint-get_sequence_example = get_codepoint-get_sequence 0x20AC (codes "rest") (omega arith)

abbrev points : List ℕ
points = 0x4C ∷ 0xE4 ∷ 0x20AC ∷ []

abbrev other_points : List ℕ
other_points = 0x6C ∷ 0xC4 ∷ 0x20AC ∷ []

-- A text that ends within a sequence of three bytes.
strlen_total_example : (r : Option ℕ) × (strlen (0x41 ∷ 0xE2 ∷ 0x82 ∷ 0 ∷ []) ≡ some r)
strlen_total_example = strlen_total (0x41 ∷ 0xE2 ∷ 0x82 ∷ 0 ∷ []) (inr (inr (inr (inl refl))))

fold_case_twice_example : fold_case (fold_case 0x1C4).0 ≡ ((fold_case 0x1C4).0, 0)
fold_case_twice_example = fold_case_twice 0x1C4

fold_case_ascii_example : fold_case 0x51 ≡ (0x71, 0)
fold_case_ascii_example = fold_case_ascii 0x51 (omega arith)
