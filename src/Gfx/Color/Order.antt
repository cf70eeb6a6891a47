-- ===== src/Gfx/Color/Order.antt =====
-- The order that `strcmp` of player/src/gfx/color.c compares by.
use lavender.Base.{
  ◌≡◌, refl, ap₂, true, false, arith, ℕ, [], ◌∷◌, Bytes, str_equal, ◌⊎◌, inl, inr, Bool-cases,
}
use lavender.Utf8.{Sign, less, same, greater}
use lavender.Gfx.Color.{strcmp}

pub Sign-cases : (s : Sign) → (s ≡ less) ⊎ ((s ≡ same) ⊎ (s ≡ greater))
Sign-cases less = inl refl
Sign-cases same = inr (inl refl)
Sign-cases greater = inr (inr refl)

pub strcmp-flip : (a b : Bytes) → strcmp a b ≡ greater → strcmp b a ≡ less
unfolding strcmp
strcmp-flip [] [] h = cc
strcmp-flip [] (y ∷ b) h = cc
strcmp-flip (x ∷ a) [] h = refl
strcmp-flip (x ∷ a) (y ∷ b) h = let rest = strcmp-flip a b in ground arith

pub strcmp-unflip : (a b : Bytes) → strcmp a b ≡ less → strcmp b a ≡ greater
unfolding strcmp
strcmp-unflip [] [] h = cc
strcmp-unflip [] (y ∷ b) h = refl
strcmp-unflip (x ∷ a) [] h = cc
strcmp-unflip (x ∷ a) (y ∷ b) h = let rest = strcmp-unflip a b in ground arith

pub strcmp_trans : (a b c : Bytes) → strcmp a b ≡ less → strcmp b c ≡ less → strcmp a c ≡ less
unfolding strcmp
strcmp_trans [] [] c h k = cc
strcmp_trans [] (y ∷ b) [] h k = cc
strcmp_trans [] (y ∷ b) (z ∷ c) h k = refl
strcmp_trans (x ∷ a) [] c h k = cc
strcmp_trans (x ∷ a) (y ∷ b) [] h k = cc
strcmp_trans (x ∷ a) (y ∷ b) (z ∷ c) h k = let rest = strcmp_trans a b c in ground arith

pub strcmp-equal : (a b : Bytes) → strcmp a b ≡ same → str_equal a b ≡ true
unfolding strcmp str_equal
strcmp-equal [] [] h = refl
strcmp-equal [] (y ∷ b) h = cc
strcmp-equal (x ∷ a) [] h = cc
strcmp-equal (x ∷ a) (y ∷ b) h = let rest = strcmp-equal a b in ground arith

pub strcmp-differs : (a b : Bytes) → str_equal a b ≡ true → strcmp a b ≡ same
unfolding strcmp str_equal
strcmp-differs [] [] h = refl
strcmp-differs [] (y ∷ b) h = cc
strcmp-differs (x ∷ a) [] h = cc
strcmp-differs (x ∷ a) (y ∷ b) h = let rest = strcmp-differs a b in ground arith

pub equal_texts : (a b : Bytes) → strcmp a b ≡ same → b ≡ a
unfolding strcmp
equal_texts [] [] h = refl
equal_texts [] (y ∷ b) h = cc
equal_texts (x ∷ a) [] h = cc
equal_texts (x ∷ a) (y ∷ b) h =
    let rest = equal_texts a b in
    let head : y ≡ x = ground arith in
    let tail : strcmp a b ≡ same = ground arith in
    ap₂ (λ (z : ℕ) (t : Bytes). z ∷ t) head (rest tail)

pub strcmp-unequal : (a b : Bytes) → strcmp a b ≡ less → str_equal a b ≡ false
strcmp-unequal a b h = elim (Bool-cases (str_equal a b)) [
  | inr e ↦ e
  | inl e ↦ let s = strcmp-differs a b e in cc
]

pub strcmp-unequal_greater : (a b : Bytes) → strcmp a b ≡ greater → str_equal a b ≡ false
strcmp-unequal_greater a b h = elim (Bool-cases (str_equal a b)) [
  | inr e ↦ e
  | inl e ↦ let s = strcmp-differs a b e in cc
]
