-- ===== src/Sld/Areas.antt =====
-- The active areas of player/src/sld/actarea.c: a table of rectangles with tags. The static array
-- `_areas` is the list of its elements, passed on.
pub mod Laws
use lavender.Base.{
  ℕ, zero, suc, ◌+◌, ◌-◌, ◌%◌, ◌^◌, ◌/◌, Bool, true, false, List, [], ◌∷◌, map, replicate,
}
use lavender.Base.{ltb, leb, ◌==◌, ◌&&◌, u16, if◌then◌else◌, Option, some, none}

-- An element of `_areas`.
pub record Area : Type 0 where
  pub left : ℕ
  pub top : ℕ
  pub width : ℕ
  pub height : ℕ
  pub tag : ℕ

abbrev pub max_areas : ℕ
max_areas = 16

-- The table at the start of the program: a static array is zero.
abbrev pub areas_at_start : List Area
areas_at_start = replicate max_areas (record { left = 0; top = 0; width = 0; height = 0; tag = 0 })

-- The test of `_add_area` for an area that is there already.
unfoldable pub same_place : Area → Area → Bool
same_place a b =
    (a.left == b.left) && (a.top == b.top) && (a.width == b.width) && (a.height == b.height)

unfoldable pub with_tag : Area → ℕ → Area
with_tag a tag = record {
  left = a.left;
  top = a.top;
  width = a.width;
  height = a.height;
  tag = tag;
}

-- `_add_area`, with the table that it leaves and whether it succeeds.
unfoldable pub add_area : Area → List Area → List Area × Bool
add_area new [] = ([], false)
add_area new (a ∷ areas) =
    let rest = add_area new areas in
    if same_place a new
    then (with_tag a new.tag ∷ areas, true)
    else if 0 == a.tag
    then (new ∷ areas, true)
    else (a ∷ rest.0, rest.1)

-- Whether `__sld_retrieve_active_area_tag` passes over an area.
unfoldable pub skips : Area → ℕ → ℕ → Bool
skips a x y =
    if ltb x a.left
    then true
    else if ltb y a.top
    then true
    else if leb a.width (x - a.left)
    then true
    else leb a.height (y - a.top)

-- `__sld_retrieve_active_area_tag`.
unfoldable pub retrieve_tag : List Area → ℕ → ℕ → ℕ
retrieve_tag [] x y = 0
retrieve_tag (a ∷ areas) x y =
    let rest = retrieve_tag areas x y in if skips a x y then rest else a.tag

-- A half of a difference of `int`, as a `uint16_t`: the division rounds to zero.
unfoldable pub half_difference : ℕ → ℕ → ℕ
half_difference a b = if leb b a then u16 ((a - b) / 2) else u16 (2 ^ 16 - (b - a) / 2 % 2 ^ 16)

-- A difference of `int`, as a `uint16_t`.
unfoldable pub cast_difference : ℕ → ℕ → ℕ
cast_difference a b = if leb b a then u16 (a - b) else u16 (2 ^ 16 - (b - a) % 2 ^ 16)

-- The horizontal position that `posx` stands for, on a screen of so many columns.
unfoldable pub aligned : ℕ → ℕ → ℕ → ℕ
aligned columns width posx =
    if posx == 0xFFF1
    then half_difference columns width
    else if posx == 0xFFF2
    then cast_difference columns width
    else posx

-- `__sld_execute_active_area`, of the fields of the entry: the table, and whether it succeeds.
unfoldable pub execute_active_area :
    ℕ → (posx posy width height tag : ℕ) → List Area → List Area × Bool
execute_active_area columns posx posy width height tag areas =
    if (0 == posx) && (0 == posy) && (0 == width) && (0 == tag)
    then (map (λ (a : Area). with_tag a 0) areas, true)
    else add_area
        (record {
          left = aligned columns width posx;
          top = posy;
          width = width;
          height = height;
          tag = tag;
        })
        areas
