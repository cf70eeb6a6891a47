-- ===== src/Gfx/Color/Search.antt =====
-- The binary search of player/src/gfx/color.c against a lookup.
use lavender.Base.{
  ℕ, zero, suc, ◌+◌, ◌-◌, ◌/◌, ◌^◌, ◌<◌, ◌≤◌, ◌≡◌, refl, ap, sym, ◌∙◌, true, false, inl, inr, ◌≢◌,
}
use lavender.Base.{List, some, none, Bytes, arith, length, get_elem?, codes, ltb, ◌⊎◌}
use mathlib.Core.Option.{some_inj}
use lavender.Utf8.{Sign, less, same, greater}
use lavender.Gfx.Color.{
  black, cyan, maroon, unknown, found, outside, ColorName, named_colors, strcmp, search,
  size_before, gfx_get_color,
}
use lavender.Gfx.Color.Order.{
  strcmp-flip, strcmp-unflip, strcmp_trans, equal_texts, strcmp-unequal, strcmp-unequal_greater,
  strcmp-equal,
}
use lavender.Gfx.Color.Table.{
  color_of, is_sorted, sorted-pairs, color_of-absent, color_of-first, get_elem?-some,
  get_elem?-inside,
}

-- What the search keeps of a table: what is before `begin` is less than the text, and what is behind `end` is
-- greater.
record Narrowed (table : List ColorName) (str : Bytes) (begin end : ℕ) : Type 0 where
  before :
      (j : ℕ) (d : ColorName) → j < begin → get_elem? table j ≡ some d → strcmp d.name str ≡ less
  behind :
      (j : ℕ) (d : ColorName) → end < j → get_elem? table j ≡ some d → strcmp d.name str ≡ greater
  inside : end < length table
  near : begin ≤ end + 1

size_before-suc : (i : ℕ) → suc i < 2 ^ 63 → size_before (suc i) ≡ i
size_before-suc i h = omega arith

module _ (table : List ColorName) (str : Bytes) (sorted : is_sorted table ≡ true)
    (small : length table < 2 ^ 63) where
  abbrev Found : (rounds begin end : ℕ) → Type 0
  Found rounds begin end =
      Narrowed table str begin end
      → end + 1 < begin + rounds
      → search table str rounds begin end ≡ found (color_of table str)

  found_here :
      (i : ℕ) (c : ColorName)
      → get_elem? table i ≡ some c
      → strcmp c.name str ≡ same
      → color_of table str ≡ c.color
  found_here i c at equal =
      color_of-first table str i c at (strcmp-equal c.name str equal) (λ j d below at_j.
        strcmp-unequal d.name str (
          ap (strcmp d.name) (equal_texts c.name str equal)
          ∙ sorted-pairs table j i d c sorted below at_j at))

  not_found :
      (begin end : ℕ) → Narrowed table str begin end → end < begin → color_of table str ≡ unknown
  not_found begin end narrowed crossed = color_of-absent table str (λ j d at. elim (split j) [
    | inl h ↦ strcmp-unequal d.name str (narrowed.before j d h at)
    | inr h ↦ strcmp-unequal_greater d.name str (narrowed.behind j d h at)
  ])
    where
      split : (j : ℕ) → (j < begin) ⊎ (end < j)
      split j = omega arith

  above_from :
      (i j : ℕ) (c d : ColorName)
      → get_elem? table i ≡ some c
      → strcmp c.name str ≡ greater
      → i ≤ j
      → get_elem? table j ≡ some d
      → strcmp d.name str ≡ greater
  above_from i j c d at above up at_j =
      let split : (i ≡ j) ⊎ (i < j) = omega arith in
      elim split [
        | inl e ↦
            let one : c ≡ d = some_inj.0 (sym at ∙ ap (get_elem? table) e ∙ at_j) in
            ap (λ (t : ColorName). strcmp t.name str) (sym one) ∙ above
        | inr h ↦ strcmp-unflip str d.name (
            strcmp_trans str c.name d.name (strcmp-flip c.name str above)
              (sorted-pairs table i j c d sorted h at at_j))
      ]

  below_to :
      (i j : ℕ) (c d : ColorName)
      → get_elem? table i ≡ some c
      → strcmp c.name str ≡ less
      → j ≤ i
      → get_elem? table j ≡ some d
      → strcmp d.name str ≡ less
  below_to i j c d at below up at_j =
      let split : (i ≡ j) ⊎ (j < i) = omega arith in
      elim split [
        | inl e ↦
            let one : c ≡ d = some_inj.0 (sym at ∙ ap (get_elem? table) e ∙ at_j) in
            ap (λ (t : ColorName). strcmp t.name str) (sym one) ∙ below
        | inr h ↦ strcmp_trans d.name c.name str (sorted-pairs table j i d c sorted h at_j at) below
      ]

  lower_half :
      (begin end i : ℕ) (c : ColorName)
      → Narrowed table str begin end
      → get_elem? table (suc i) ≡ some c
      → strcmp c.name str ≡ greater
      → suc i ≤ end
      → begin ≤ suc i
      → Narrowed table str begin i
  lower_half begin end i c narrowed at above below from = record {
    before = narrowed.before;
    behind = λ j d less_j at_j. above_from (suc i) j c d at above (omega arith) at_j;
    inside = let h = narrowed.inside in omega arith;
    near = omega arith;
  }

  upper_half :
      (begin end i : ℕ) (c : ColorName)
      → Narrowed table str begin end
      → get_elem? table i ≡ some c
      → strcmp c.name str ≡ less
      → i ≤ end
      → Narrowed table str (suc i) end
  upper_half begin end i c narrowed at above below = record {
    before = λ j d less_j at_j. below_to i j c d at above (omega arith) at_j;
    behind = narrowed.behind;
    inside = narrowed.inside;
    near = omega arith;
  }

  -- One round of the loop.
  search-round :
      (rounds begin end : ℕ) (c : ColorName)
      → get_elem? table ((begin + end) / 2) ≡ some c
      → begin ≤ end
      → search table str (suc rounds) begin end ≡ elim (strcmp c.name str) [
        | greater ↦ search table str rounds begin (size_before ((begin + end) / 2))
        | less ↦ search table str rounds (suc ((begin + end) / 2)) end
        | same ↦ found c.color
      ]
  unfolding search
  search-round rounds begin end c at within =
      let test : ltb end begin ≡ false = ground arith in simp (test, at)

  search-lower :
      (rounds begin end : ℕ) (c : ColorName)
      → get_elem? table ((begin + end) / 2) ≡ some c
      → begin ≤ end
      → strcmp c.name str ≡ greater
      → search table str (suc rounds) begin end
        ≡ search table str rounds begin (size_before ((begin + end) / 2))
  search-lower rounds begin end c at within above =
      search-round rounds begin end c at within ∙ rw above refl

  search-outside :
      (rounds begin end : ℕ)
      → get_elem? table ((begin + end) / 2) ≡ none
      → begin ≤ end
      → search table str (suc rounds) begin end ≡ outside ((begin + end) / 2)
  unfolding search
  search-outside rounds begin end at within =
      let test : ltb end begin ≡ false = ground arith in simp (test, at)

  search-crossed :
      (rounds begin end : ℕ) → end < begin → search table str (suc rounds) begin end ≡ found unknown
  unfolding search
  search-crossed rounds begin end crossed = ground arith

  module _
      (after : (d : ColorName) → get_elem? table 0 ≡ some d → strcmp d.name str ≢ greater) where
    greater_half :
        (rounds begin end i : ℕ) (c : ColorName)
        → ((begin end : ℕ) → Found rounds begin end)
        → Narrowed table str begin end
        → i ≤ end
        → begin ≤ i
        → end < begin + rounds
        → get_elem? table i ≡ some c
        → strcmp c.name str ≡ greater
        → search table str rounds begin (size_before i) ≡ found (color_of table str)
    greater_half rounds begin end zero c again narrowed below from enough at sign =
        absurd (after c at sign)
    greater_half rounds begin end (suc i) c again narrowed below from enough at sign =
        ap (search table str rounds begin)
          (size_before-suc i (let h = narrowed.inside in omega arith))
        ∙ again begin i (lower_half begin end i c narrowed at sign below from) (omega arith)

    search-halves :
        (rounds begin end : ℕ) (c : ColorName)
        → ((begin end : ℕ) → Found rounds begin end)
        → Narrowed table str begin end
        → end + 1 < begin + suc rounds
        → get_elem? table ((begin + end) / 2) ≡ some c
        → begin ≤ end
        → (s : Sign) → strcmp c.name str ≡ s
        → elim s [
          | greater ↦ search table str rounds begin (size_before ((begin + end) / 2))
          | less ↦ search table str rounds (suc ((begin + end) / 2)) end
          | same ↦ found c.color
        ]
          ≡ found (color_of table str)
    search-halves rounds begin end c again narrowed enough at within same sign =
        ap found (sym (found_here ((begin + end) / 2) c at sign))
    search-halves rounds begin end c again narrowed enough at within less sign =
        again (suc ((begin + end) / 2)) end
          (upper_half begin end ((begin + end) / 2) c narrowed at sign (omega arith)) (omega arith)
    search-halves rounds begin end c again narrowed enough at within greater sign =
        greater_half rounds begin end ((begin + end) / 2) c again narrowed (omega arith)
          (omega arith) (omega arith) at sign

    search-color_of : (rounds begin end : ℕ) → Found rounds begin end
    search-color_of zero begin end narrowed enough = absurd (let h = narrowed.near in omega arith)
    search-color_of (suc rounds) begin end narrowed enough =
        let order : (end < begin) ⊎ (begin ≤ end) = omega arith in
        elim order [
          | inl crossed ↦
              search-crossed rounds begin end crossed
              ∙ ap found (sym (not_found begin end narrowed crossed))
          | inr within ↦
              let (c, at) =
                get_elem?-some table ((begin + end) / 2) (let h = narrowed.inside in omega arith) in
              search-round rounds begin end c at within
              ∙ search-halves rounds begin end c (λ b e. search-color_of rounds b e) narrowed enough
                  at within (strcmp c.name str) refl
        ]

-- `gfx_get_color` ends for every text that is not less than `aqua`, with no access outside its table, and gives the
-- color of the table's name that is equal to the text, or GFX_COLOR_UNKNOWN where there is none.
pub gfx_get_color-color_of :
    (str : Bytes)
    → strcmp (codes "aqua") str ≢ greater
    → gfx_get_color str ≡ found (color_of named_colors str)
unfolding gfx_get_color named_colors is_sorted strcmp
gfx_get_color-color_of str after =
    search-color_of named_colors str refl (omega arith)
      (λ d at sign. after (ap (λ (c : ColorName). strcmp c.name str) (some_inj.0 at) ∙ sign)) 18 0
      16
      (record {
        before = λ j d h at. absurd (omega arith);
        behind =
            λ j d h at. absurd (let inside = get_elem?-inside named_colors j d at in omega arith);
        inside = omega arith;
        near = omega arith;
      })
      (omega arith)

above_aqua :
    (name str : Bytes)
    → strcmp (codes "aqua") name ≡ less
    → strcmp (codes "aqua") str ≡ greater
    → strcmp name str ≡ greater
above_aqua name str above before =
    strcmp-unflip str name
      (strcmp_trans str (codes "aqua") name (strcmp-flip (codes "aqua") str before) above)

-- For a text that is less than `aqua` the search of `gfx_get_color` leaves its table: it reads the element whose
-- number is half of the greatest `size_t`, where the table has 17.
pub gfx_get_color-outside :
    (str : Bytes)
    → strcmp (codes "aqua") str ≡ greater
    → gfx_get_color str ≡ outside ((2 ^ 64 - 1) / 2)
unfolding gfx_get_color named_colors is_sorted strcmp
gfx_get_color-outside str before =
    search-lower named_colors str refl (omega arith) 17 0 16
      (record { name = codes "maroon"; color = maroon }) refl (omega arith)
      (above_aqua (codes "maroon") str refl before)
    ∙ search-lower named_colors str refl (omega arith) 16 0 7
        (record { name = codes "cyan"; color = cyan }) refl (omega arith)
        (above_aqua (codes "cyan") str refl before)
    ∙ search-lower named_colors str refl (omega arith) 15 0 2
        (record { name = codes "black"; color = black }) refl (omega arith)
        (above_aqua (codes "black") str refl before)
    ∙ search-lower named_colors str refl (omega arith) 14 0 0
        (record { name = codes "aqua"; color = cyan }) refl (omega arith) before
    ∙ search-outside named_colors str refl (omega arith) 13 0 (2 ^ 64 - 1) refl (omega arith)
