-- ===== src/Sld/Entry/Line.antt =====
-- The end of `sld_load_entry` of player/src/sld/loader.c: the rest of a line, and the line ends behind it.
use mathlib.Core.Option
use lavender.Base.{ℕ, suc, true, false, [], ◌∷◌, Option, some, none, Bytes}
use lavender.Sld.Loader.{is_line_end}

-- The loop over line ends: how many there are.
unfoldable pub pass_ends : Bytes → Option ℕ
pass_ends [] = none
pass_ends (c ∷ str) = elim (is_line_end c) [
  | true ↦ Option.map suc (pass_ends str)
  | false ↦ some 0
]

-- The loop over the rest of the line, and the loop behind it.
unfoldable pub pass_line : Bytes → Option ℕ
unfolding pass_ends
pass_line [] = none
pass_line (c ∷ str) = elim (is_line_end c) [
  | true ↦ Option.map suc (pass_ends str)
  | false ↦ Option.map suc (pass_line str)
]
