-- ===== src/Gfx/Color/Table.antt =====
-- Tables of names of player/src/gfx/color.c: a lookup, and what their order gives.
use lavender.Base.{ℕ, zero, suc, ◌<◌, ◌≡◌, refl, ap, sym, ◌∙◌, Bool, true, false, inl, inr}
use lavender.Base.{List, [], ◌∷◌, some, Bytes, arith, length, get_elem?, str_equal, if◌then◌else◌}
use mathlib.Core.Option.{some_inj}
use lavender.Utf8.{less}
use lavender.Gfx.Color.{GfxColor, unknown, ColorName, strcmp}
use lavender.Gfx.Color.Order.{Sign-cases, strcmp_trans}

-- The color of a name that a table has.
unfoldable pub color_of : List ColorName → Bytes → GfxColor
color_of [] str = unknown
color_of (c ∷ table) str = if str_equal c.name str then c.color else color_of table str

-- Whether a table is in strict order.
unfoldable pub is_sorted : List ColorName → Bool
is_sorted [] = true
is_sorted (c ∷ []) = true
is_sorted (c ∷ d ∷ table) = elim (strcmp c.name d.name) [ less ↦ is_sorted (d ∷ table) | _ ↦ false ]

sorted-step :
    (c d : ColorName) (table : List ColorName)
    → is_sorted (c ∷ d ∷ table) ≡ true
    → (strcmp c.name d.name ≡ less) × (is_sorted (d ∷ table) ≡ true)
unfolding is_sorted
sorted-step c d table h = elim (Sign-cases (strcmp c.name d.name)) [
  | inl e ↦ (e, ground arith)
  | inr (inl e) ↦ absurd (ground arith)
  | inr (inr e) ↦ absurd (ground arith)
]

sorted-first :
    (c d : ColorName) (table : List ColorName) (j : ℕ)
    → is_sorted (c ∷ table) ≡ true
    → get_elem? table j ≡ some d
    → strcmp c.name d.name ≡ less
sorted-first c d [] j h at = cc
sorted-first c d (x ∷ table) zero h at =
    let (first, rest) = sorted-step c x table h in
    ap (λ (t : ColorName). strcmp c.name t.name) (sym (some_inj.0 at)) ∙ first
sorted-first c d (x ∷ table) (suc j) h at =
    let (first, rest) = sorted-step c x table h in
    strcmp_trans c.name x.name d.name first (sorted-first x d table j rest at)

sorted-tail :
    (c : ColorName) (table : List ColorName) → is_sorted (c ∷ table) ≡ true → is_sorted table ≡ true
unfolding is_sorted
sorted-tail c [] h = refl
sorted-tail c (d ∷ table) h = (sorted-step c d table h).1

pub sorted-pairs :
    (table : List ColorName) (i j : ℕ) (c d : ColorName)
    → is_sorted table ≡ true
    → i < j
    → get_elem? table i ≡ some c
    → get_elem? table j ≡ some d
    → strcmp c.name d.name ≡ less
sorted-pairs [] i j c d h below at_i at_j = cc
sorted-pairs (x ∷ table) i zero c d h below at_i at_j = absurd (omega arith)
sorted-pairs (x ∷ table) zero (suc j) c d h below at_i at_j =
    ap (λ (t : ColorName). strcmp t.name d.name) (sym (some_inj.0 at_i))
    ∙ sorted-first x d table j h at_j
sorted-pairs (x ∷ table) (suc i) (suc j) c d h below at_i at_j =
    sorted-pairs table i j c d (sorted-tail x table h) (omega arith) at_i at_j

pub color_of-absent :
    (table : List ColorName) (str : Bytes)
    → ((j : ℕ) (c : ColorName) → get_elem? table j ≡ some c → str_equal c.name str ≡ false)
    → color_of table str ≡ unknown
unfolding color_of
color_of-absent [] str h = refl
color_of-absent (c ∷ table) str h =
    simp (h 0 c refl, color_of-absent table str (λ j d at. h (suc j) d at))

pub color_of-first :
    (table : List ColorName) (str : Bytes) (i : ℕ) (c : ColorName)
    → get_elem? table i ≡ some c
    → str_equal c.name str ≡ true
    → ((j : ℕ) (d : ColorName) → j < i → get_elem? table j ≡ some d → str_equal d.name str ≡ false)
    → color_of table str ≡ c.color
unfolding color_of
color_of-first [] str i c at equal before = cc
color_of-first (x ∷ table) str zero c at equal before =
    let here : str_equal x.name str ≡ true =
      ap (λ (t : ColorName). str_equal t.name str) (some_inj.0 at) ∙ equal in
    rw here (ap (λ (t : ColorName). t.color) (some_inj.0 at))
color_of-first (x ∷ table) str (suc i) c at equal before = simp (
  before 0 x (omega arith) refl,
  color_of-first table str i c at equal (λ j d less at_j. before (suc j) d (omega arith) at_j),
)

pub get_elem?-some :
    {A : Type 0} (xs : List A) (i : ℕ) → i < length xs → (a : A) × (get_elem? xs i ≡ some a)
get_elem?-some [] i h = absurd (omega arith)
get_elem?-some (x ∷ xs) zero h = (x, refl)
get_elem?-some (x ∷ xs) (suc i) h = get_elem?-some xs i (omega arith)

pub get_elem?-inside :
    {A : Type 0} (xs : List A) (i : ℕ) (a : A) → get_elem? xs i ≡ some a → i < length xs
get_elem?-inside [] i a h = cc
get_elem?-inside (x ∷ xs) zero a h = omega arith
get_elem?-inside (x ∷ xs) (suc i) a h = let rest = get_elem?-inside xs i a h in omega arith
