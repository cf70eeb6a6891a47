-- ===== src/Sld/Loader.antt =====
-- `__sld_load_content`, `__sld_load_position`, `__sld_load_conditional` and
-- `__sld_load_active_area` of player/src/sld/loader.c, jump.c and actarea.c. Each takes the text of
-- the script from the place that it is called with; a read behind its end and a store behind the array of an
-- entry make the result `none`.
pub mod Content
pub mod Position
use lavender.Base.{
  ℕ, zero, suc, ◌+◌, ◌-◌, Bool, true, false, List, [], ◌∷◌, Option, some, none, Bytes,
}
use lavender.Base.{ltb, ◌==◌, ◌||◌, drop, get_elem?, length, if◌then◌else◌, ◌%◌, ◌^◌}
use mathlib.Core.Option
use lavender.Sld.Numbers.{loadu, skip_spaces, and_then, Stopped}

-- The message that an error leaves in place of the entry.
pub data Message : Type 0 where
  long_content : Message
  invalid_vpos : Message
  invalid_hpos : Message
  invalid_cmpval : Message
  invalid_delay : Message
  unknown_type : Message
  long_name : Message

-- What a loading function does: the length that it passes and a value for the entry, or SLD_ARGERR.
pub data Loaded (A : Type 0) : Type 0 where
  loaded : ℕ → A → Loaded A
  argerr : Message → Loaded A

-- SLD_ENTRY_MAX_LENGTH; the array `content` has one element more.
abbrev pub max_length : ℕ
max_length = 255

abbrev pub is_line_end : ℕ → Bool
is_line_end c = (13 == c) || (10 == c)

-- The loop of `__sld_load_content` up to the end of the line, with the number of characters that
-- are written already: the characters, or `none` inside for a line that is too long. At its end the terminator is
-- stored behind them: a fault where the array is full.
unfoldable pub content_loop : Bytes → ℕ → Option (Option Bytes)
content_loop [] written = none
content_loop (c ∷ str) written = elim (is_line_end c) [
  | true ↦ if ltb max_length written then none else some (some [])
  | false ↦ elim (ltb max_length written) [
    | true ↦ some none
    | false ↦ Option.map (Option.map (λ (cs : Bytes). c ∷ cs)) (content_loop str (suc written))
  ]
]

-- The content with the length that `out->length` gets, a `uint8_t`.
abbrev pub to_content : ℕ → Option Bytes → Loaded (Bytes × ℕ)
to_content passed none = argerr long_content
to_content passed (some cs) = loaded (passed + length cs) (cs, length cs % 2 ^ 8)

unfoldable pub load_content : Bytes → Option (Loaded (Bytes × ℕ))
load_content str =
    and_then (skip_spaces str)
      (λ (a : Stopped). Option.map (to_content (a.passed)) (content_loop (a.rest) 0))

-- The horizontal position that an alignment mark stands for.
unfoldable pub alignment : ℕ → Option ℕ
alignment c =
    if c == 60
    then some 0
    else if c == 62
    then some 0xFFF2
    else if c == 94
    then some 0xFFF1
    else none

-- The end of `__sld_load_position`, behind the vertical position: `(posy, posx)`.
unfoldable pub load_horizontal : ℕ → ℕ → Bytes → Option (Loaded (ℕ × ℕ))
load_horizontal passed posy str = and_then (loadu str) (λ (r : Option ℕ × ℕ). elim (r.0) [
  | some n ↦ some (loaded (passed + n) (posy, r.1))
  | none ↦
      Option.map
        (λ (c : ℕ). elim (alignment c) [
          | some posx ↦ loaded (passed + 1) (posy, posx)
          | none ↦ argerr invalid_hpos
        ])
        (get_elem? str 0)
])

unfoldable pub load_position : Bytes → Option (Loaded (ℕ × ℕ))
load_position str = and_then (loadu str) (λ (r : Option ℕ × ℕ). elim (r.0) [
  | none ↦ some (argerr invalid_vpos)
  | some n ↦ load_horizontal n r.1 (drop n str)
])

-- `__sld_load_conditional`: the value to compare with, and the label.
unfoldable pub load_conditional : Bytes → Option (Loaded (ℕ × (Bytes × ℕ)))
load_conditional str = and_then (loadu str) (λ (r : Option ℕ × ℕ). elim (r.0) [
  | none ↦ some (argerr invalid_cmpval)
  | some n ↦
      Option.map
        (λ (l : Loaded (Bytes × ℕ)). elim l [
          | argerr m ↦ argerr m
          | loaded k content ↦ loaded (n + k) (r.1, content)
        ])
        (load_content (drop n str))
])

-- `cur += __sld_loadu (cur, &value)`, whose error moves back by a byte: the place and the value.
unfoldable pub advance : Bytes → ℕ → Option (ℕ × ℕ)
advance text cur =
    Option.map
      (λ (r : Option ℕ × ℕ). elim (r.0) [ some n ↦ (cur + n, r.1) | none ↦ (cur - 1, r.1) ])
      (loadu (drop cur text))

-- `__sld_load_active_area` at the place `start` of a text: the place it ends at, and the position,
-- the width, the height and the tag.
unfoldable pub load_active_area : Bytes → ℕ → Option (Loaded ((ℕ × ℕ) × ℕ × ℕ × ℕ))
load_active_area text start = and_then (load_position (drop start text)) (λ (l : Loaded (ℕ × ℕ)).
    elim l [
      | argerr m ↦ some (argerr m)
      | loaded n position ↦ and_then (advance text (start + n)) (λ (w : ℕ × ℕ).
          and_then (advance text (w.0)) (λ (h : ℕ × ℕ).
            Option.map (λ (t : ℕ × ℕ). loaded (t.0 + 1 - start) (position, w.1, h.1, t.1))
              (advance text (h.0))))
    ])
