-- ===== src/Gfx/Color.antt =====
-- `gfx_get_color` of player/src/gfx/color.c. A text is the list of its bytes before the terminator. A read
-- outside the table is a result of its own.
pub mod Order
pub mod Table
pub mod Search
use lavender.Base.{ℕ, zero, suc, ◌+◌, ◌-◌, ◌/◌, ◌^◌, List, [], ◌∷◌, Option, some, none, Bytes}
use lavender.Base.{ltb, if◌then◌else◌, codes, length, get_elem?, u64}
use lavender.Utf8.{Sign, less, same, greater}

-- `gfx_color`
pub data GfxColor : Type 0 where
  black navy green teal maroon purple olive silver gray blue lime : GfxColor
  cyan red fuchsia yellow white unknown : GfxColor

-- `color_name`
pub record ColorName : Type 0 where
  pub name : Bytes
  pub color : GfxColor

-- NAMED_COLORS
unfoldable pub named_colors : List ColorName
named_colors =
    record { name = codes "aqua"; color = cyan }
    ∷ record { name = codes "black"; color = black }
    ∷ record { name = codes "blue"; color = blue }
    ∷ record { name = codes "cyan"; color = cyan }
    ∷ record { name = codes "fuchsia"; color = fuchsia }
    ∷ record { name = codes "gray"; color = gray }
    ∷ record { name = codes "green"; color = green }
    ∷ record { name = codes "lime"; color = lime }
    ∷ record { name = codes "maroon"; color = maroon }
    ∷ record { name = codes "navy"; color = navy }
    ∷ record { name = codes "olive"; color = olive }
    ∷ record { name = codes "purple"; color = purple }
    ∷ record { name = codes "red"; color = red }
    ∷ record { name = codes "silver"; color = silver }
    ∷ record { name = codes "teal"; color = teal }
    ∷ record { name = codes "white"; color = white }
    ∷ record { name = codes "yellow"; color = yellow }
    ∷ []

-- The sign of `strcmp (a, b)`.
unfoldable pub strcmp : Bytes → Bytes → Sign
strcmp [] [] = same
strcmp [] (y ∷ b) = less
strcmp (x ∷ a) [] = greater
strcmp (x ∷ a) (y ∷ b) =
    let rest = strcmp a b in if ltb x y then less else if ltb y x then greater else rest

-- `i - 1` of a `size_t` of 64 bits.
abbrev pub size_before : ℕ → ℕ
size_before i = u64 (i + (2 ^ 64 - 1))

-- How the search ends: with a color, with a read of the table at a place outside it, or with its rounds used up.
pub data SearchEnd : Type 0 where
  found : GfxColor → SearchEnd
  outside : ℕ → SearchEnd
  unfinished : SearchEnd

-- The loop of `gfx_get_color` over a table, in so many rounds.
unfoldable pub search : List ColorName → Bytes → ℕ → (begin end : ℕ) → SearchEnd
search table str zero begin end = unfinished
search table str (suc rounds) begin end =
    let i = (begin + end) / 2 in
    let lower = search table str rounds begin (size_before i) in
    let upper = search table str rounds (suc i) end in
    if ltb end begin then found unknown else elim (get_elem? table i) [
      | none ↦ outside i
      | some c ↦ elim (strcmp c.name str) [ greater ↦ lower | less ↦ upper | same ↦ found c.color ]
    ]

-- `gfx_get_color`: one round more than there are names.
unfoldable pub gfx_get_color : Bytes → SearchEnd
unfolding search
gfx_get_color str = search named_colors str (suc (length named_colors)) 0 (length named_colors - 1)

-- The color of a search, for a caller; a fault where there is none.
abbrev pub searched_color : SearchEnd → Option GfxColor
searched_color (found color) = some color
searched_color (outside i) = none
searched_color unfinished = none
