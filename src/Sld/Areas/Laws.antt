-- ===== src/Sld/Areas/Laws.antt =====
-- What the table of active areas answers.
use lavender.Base.{◌⊎◌, ℕ, suc, ◌+◌, ◌≤◌, ◌<◌, ◌≡◌, refl, ap, sym, ◌∙◌, Bool, true, false, arith}
use lavender.Base.{List, [], ◌∷◌, All, length, ◌==◌, ◌↔◌, inl, inr, Bool-cases}
use lavender.Sld.Areas.{Area, same_place, with_tag, add_area, skips, retrieve_tag}

-- A point within the rectangle of an area.
abbrev pub Contains : Area → ℕ → ℕ → Type 0
Contains a x y = (a.left ≤ x) × (x < a.left + a.width) × (a.top ≤ y) × (y < a.top + a.height)

-- Rectangles that agree.
abbrev pub IsSamePlace : Area → Area → Type 0
IsSamePlace a b = (a.left ≡ b.left) × (a.top ≡ b.top) × (a.width ≡ b.width) × (a.height ≡ b.height)

skips_not : (a : Area) (x y : ℕ) → Contains a x y → skips a x y ≡ false
unfolding skips
skips_not a x y (l, r, t, b) = ground arith

skips-Contains : (a : Area) (x y : ℕ) → skips a x y ≡ false → Contains a x y
unfolding skips
skips-Contains a x y h = ground arith

same_place-IsSamePlace : (a b : Area) → same_place a b ≡ true → IsSamePlace a b
unfolding same_place
same_place-IsSamePlace a b h = ground arith

IsSamePlace-same_place : (a b : Area) → IsSamePlace a b → same_place a b ≡ true
unfolding same_place
IsSamePlace-same_place a b h = ground arith

retrieve_tag-first :
    (a : Area) (areas : List Area) (x y : ℕ) → Contains a x y → retrieve_tag (a ∷ areas) x y ≡ a.tag
unfolding retrieve_tag
retrieve_tag-first a areas x y h = simp (skips_not a x y h)

retrieve_tag-later :
    (a : Area) (areas : List Area) (x y : ℕ)
    → skips a x y ≡ true
    → retrieve_tag (a ∷ areas) x y ≡ retrieve_tag areas x y
unfolding retrieve_tag
retrieve_tag-later a areas x y h = simp h

add_area-same :
    (new a : Area) (areas : List Area)
    → same_place a new ≡ true
    → add_area new (a ∷ areas) ≡ (with_tag a new.tag ∷ areas, true)
unfolding add_area
add_area-same new a areas h = simp h

add_area-free :
    (new a : Area) (areas : List Area)
    → same_place a new ≡ false
    → (0 == a.tag) ≡ true
    → add_area new (a ∷ areas) ≡ (new ∷ areas, true)
unfolding add_area
add_area-free new a areas h k = simp (h, k)

add_area-next :
    (new a : Area) (areas : List Area)
    → same_place a new ≡ false
    → (0 == a.tag) ≡ false
    → add_area new (a ∷ areas) ≡ (a ∷ (add_area new areas).0, (add_area new areas).1)
unfolding add_area
add_area-next new a areas h k = simp (h, k)

with_tag-Contains :
    (a new : Area) (tag x y : ℕ)
    → IsSamePlace a new
    → Contains new x y
    → Contains (with_tag a tag) x y
unfolding with_tag
with_tag-Contains a new tag x y (l, t, w, h) (p, q, r, s) =
    (omega arith, omega arith, omega arith, omega arith)

-- After an area is added, or tagged again, a point in its rectangle gets its tag, provided that no
-- other rectangle of the table holds the point. This includes the removal by the tag 0.
pub retrieve_tag-add_area :
    (new : Area) (areas : List Area) (x y : ℕ)
    → (add_area new areas).1 ≡ true
    → Contains new x y
    → All (λ (a : Area). Contains a x y → IsSamePlace a new) areas
    → retrieve_tag ((add_area new areas).0) x y ≡ new.tag
retrieve_tag-add_area new [] x y ok inside others = unfold add_area in absurd (cc ok)
retrieve_tag-add_area new (a ∷ areas) x y ok inside (other, others) =
    elim (Bool-cases (same_place a new)) [
      | inl same ↦
          let e = add_area-same new a areas same in
          ap (λ (r : List Area × Bool). retrieve_tag (r.0) x y) e
          ∙ retrieve_tag-first (with_tag a new.tag) areas x y
              (with_tag-Contains a new new.tag x y (same_place-IsSamePlace a new same) inside)
          ∙ unfold with_tag in refl
      | inr apart ↦ elim (Bool-cases (0 == a.tag)) [
        | inl free ↦
            ap (λ (r : List Area × Bool). retrieve_tag (r.0) x y)
              (add_area-free new a areas apart free)
            ∙ retrieve_tag-first new areas x y inside
        | inr taken ↦
            let e = add_area-next new a areas apart taken in
            let passed : skips a x y ≡ true = elim (Bool-cases (skips a x y)) [
              | inl h ↦ h
              | inr holds ↦
                  absurd
                    (cc (apart, IsSamePlace-same_place a new (other (skips-Contains a x y holds))))
            ] in
            ap (λ (r : List Area × Bool). retrieve_tag (r.0) x y) e
            ∙ retrieve_tag-later a ((add_area new areas).0) x y passed
            ∙ retrieve_tag-add_area new areas x y (sym (ap (λ (r : List Area × Bool). r.1) e) ∙ ok)
                inside others
      ]
    ]

-- An area that neither can be tagged again nor can be given up to a new one.
abbrev pub IsTaken : Area → Area → Type 0
IsTaken new a = (same_place a new ≡ false) × ((0 == a.tag) ≡ false)

-- Adding an area fails only when every element of the table has a tag and another rectangle, and it
-- then leaves the table as it was. It never changes the number of elements.
pub add_area_fails :
    (new : Area) (areas : List Area)
    → (((add_area new areas).1 ≡ false) ↔ All (IsTaken new) areas)
      × (((add_area new areas).1 ≡ true) ⊎ ((add_area new areas).0 ≡ areas))
      × (length ((add_area new areas).0) ≡ length areas)
add_area_fails new [] = unfold add_area in ((λ h. tt, λ h. refl), inr refl, refl)
add_area_fails new (a ∷ areas) = elim (Bool-cases (same_place a new)) [
  | inl same ↦
      rw (add_area-same new a areas same)
        (((λ h. absurd (cc h)), λ (t, ts). absurd (cc (same, t.0))), inl refl, refl)
  | inr apart ↦ elim (Bool-cases (0 == a.tag)) [
    | inl free ↦
        rw (add_area-free new a areas apart free)
          (((λ h. absurd (cc h)), λ (t, ts). absurd (cc (free, t.1))), inl refl, refl)
    | inr taken ↦
        let (full, same, count) = add_area_fails new areas in
        rw (add_area-next new a areas apart taken) (
          ((λ h. ((apart, taken), full.0 h)), λ (t, ts). full.1 ts),
          elim same [ inl added ↦ inl added | inr kept ↦ inr (ap (λ (r : List Area). a ∷ r) kept) ],
          ap suc count,
        )
  ]
]
