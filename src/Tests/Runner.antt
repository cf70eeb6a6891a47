-- ===== src/Tests/Runner.antt =====
-- Concrete runs of player/src/sld/runner.c and player/src/gfx/color.c.
use lavender.Base.{
  ℕ, ◌+◌, ◌-◌, ◌*◌, ◌^◌, ◌≡◌, ◌≤◌, refl, true, List, [], ◌∷◌, ◌++◌, some, none, Bytes, codes, arith,
}
use lavender.Base.{str_equal}
use lavender.Enc.{success}
use lavender.Gfx.Color.{found, outside, named_colors, gfx_get_color, strcmp}
use lavender.Gfx.Color.Table.{color_of}
use lavender.Gfx.Color.Search.{gfx_get_color-color_of, gfx_get_color-outside}
use lavender.Sld.Numbers.{loadu, skip_spaces, isspace, read_digits, isdigit, end_number}
use lavender.Sld.Loader.{loaded, load_content, content_loop}
use lavender.Sld.Entry.Line.{pass_line}
use lavender.Sld.Entry.{
  SldEntry, label, play, jump, chars, c_string, sld_load_entry, type_of_tag, load_parts,
}
use lavender.Sld.Entry.Progress.{sld_load_entry-moves}
use lavender.Sld.Areas.{areas_at_start}
use lavender.Sld.Runner.State.{
  Script, SldContext, Shared, done, goto_label, execute, stop, Failure, failed, syserr,
  missing_label, Player,
}
use lavender.Sld.Runner.Calls.{started}
use lavender.Sld.Runner.Labels.{go_to, matches_label, is_label}
use lavender.Sld.Runner.Lines.{
  Line, Reads, at_end, line, last_offset, find_label, looked_up, go_to-find_label,
}
use lavender.Sld.Runner.{machine, finished, unfinished, main_loop, sld_handle}
use lavender.Sld.Runner.Steps.{is_plain}
use lavender.Sld.Runner.Execute.{execute_plain, execute_play}
use lavender.Sld.Runner.Runs.{Performs, over, next, main_loop-Performs, main_loop-failed}
use lavender.Sld.Runner.Jumps.{target, landed, sld_handle-find_label, main_loop-no_label}
use lavender.Tests.Session.{platform, wizard}

gfx_get_color-color_of_example :
    gfx_get_color (codes "navy") ≡ found (color_of named_colors (codes "navy"))
unfolding strcmp
gfx_get_color-color_of_example = gfx_get_color-color_of (codes "navy") (λ h. cc)

gfx_get_color-outside_example : gfx_get_color (codes "a") ≡ outside (2 ^ 63 - 1)
unfolding strcmp
gfx_get_color-outside_example = gfx_get_color-outside (codes "a") refl

-- A platform that writes down what it is asked to play.
abbrev pub recorder : Player Bytes
recorder = record {
  pal_handle = λ w. (true, w);
  snd_handle = λ w. w;
  get_keystroke = λ w. (0, w);
  get_mouse = λ w. ((0, 0, 0), w);
  enable_mouse = λ w. w;
  disable_mouse = λ w. w;
  get_counter = λ w. (0, w);
  get_ticks = λ n. n;
  screen = λ w. (640, 200);
  color_depth = λ w. 4;
  set_title = λ title w. (true, w);
  set_env = λ name value w. (true, w);
  draw_text = λ str x y w. (true, w);
  draw_rectangle = λ r color w. (true, w);
  fill_rectangle = λ r color w. (true, w);
  draw_bitmap = λ e w. (done, w);
  play = λ name w. (success 0, w ++ name);
  open_asset = λ name writes w. (none, w);
  load_asset = λ a w. (none, w);
  asset_size = λ a w. 0;
  close_asset = λ a w. w;
  enc = platform;
}

-- Two lines, and a byte behind them.
abbrev pub two_lines : Script
two_lines = record {
  asset = 1;
  script_data = codes ":a" ++ 10 ∷ codes "0 Px" ++ 10 ∷ 0 ∷ [];
  script_size = 8;
}

abbrev first_entry : SldEntry
first_entry = (started two_lines).entry

abbrev label_line : SldEntry
label_line = record first_entry { sld_type = label; content = chars (codes "a"); length = 1 }

abbrev play_line : SldEntry
play_line = record first_entry { sld_type = play; content = chars (codes "x"); length = 1 }

abbrev lines : List Line
lines = record { entry = label_line; behind = 3 } ∷ record { entry = play_line; behind = 8 } ∷ []

label_loads : sld_load_entry (two_lines.script_data) 0 first_entry ≡ some (loaded 3 label_line)
unfolding sld_load_entry load_content skip_spaces isspace content_loop pass_line
label_loads = refl

play_loads : sld_load_entry (two_lines.script_data) 3 label_line ≡ some (loaded 5 play_line)
unfolding sld_load_entry loadu skip_spaces isspace read_digits isdigit end_number type_of_tag
    load_parts load_content content_loop pass_line
play_loads = refl

-- The label loads in the same way over the entry of a jump.
abbrev jump_to : Bytes → SldEntry
jump_to name = record first_entry { sld_type = jump; content = chars name; length = 1 }

label_loads_again :
    (c : ℕ)
    → sld_load_entry (two_lines.script_data) 0 (jump_to (c ∷ [])) ≡ some (loaded 3 label_line)
unfolding sld_load_entry load_content skip_spaces isspace content_loop pass_line
label_loads_again c = refl

sld_load_entry-moves_example : (1 ≤ 5) × (3 + 5 ≤ 9)
sld_load_entry-moves_example =
    sld_load_entry-moves two_lines.script_data 3 label_line play_line 5 play_loads

reads : Reads two_lines 0 first_entry lines
reads =
    line 3 label_line (omega arith) label_loads
      (line 5 play_line (omega arith) play_loads (at_end (omega arith)))

jump-Reads : (c : ℕ) → Reads two_lines 0 (jump_to (c ∷ [])) lines
jump-Reads c =
    line 3 label_line (omega arith) (label_loads_again c)
      (line 5 play_line (omega arith) play_loads (at_end (omega arith)))

go_to-find_label_example :
    go_to two_lines (codes "a") first_entry
    ≡ some (looked_up (last_offset 0 lines) (find_label (codes "a") lines))
go_to-find_label_example = go_to-find_label two_lines (codes "a") first_entry lines reads

abbrev silent : Shared Bytes
silent = record { accumulator = 0; areas = areas_at_start; world = [] }

performs : Performs recorder lines silent (record silent { world = codes "x" })
unfolding is_plain execute_plain execute_play c_string
performs = next refl refl refl refl refl (next refl refl refl refl refl (over refl))

main_loop-Performs_example :
    (ctx : SldContext) × (main_loop recorder wizard
        (2 * 2 + 2)
        (machine (started two_lines) [] silent)
      ≡ some (finished (machine ctx [] (record silent { world = codes "x" }))))
    × (ctx.state ≡ stop)
    × (ctx.offset ≡ last_offset 0 lines)
main_loop-Performs_example =
    main_loop-Performs recorder wizard two_lines lines silent (record silent { world = codes "x" })
      reads performs

abbrev broken : SldContext
broken = record (started two_lines) { state = failed syserr }

main_loop-failed_example :
    (child' : SldContext) × (s' : Shared Bytes) × (f' : Failure) × (main_loop recorder wizard 1000
        (machine broken (started two_lines ∷ []) silent)
      ≡ some (unfinished (machine child' (started two_lines ∷ []) s')))
    × (child'.state ≡ failed f')
main_loop-failed_example =
    main_loop-failed recorder wizard 1000 broken (started two_lines) silent syserr (λ s. refl) refl
      refl

abbrev jumping : ℕ → SldContext
jumping c = record (started two_lines) { entry = jump_to (c ∷ []) }

jumps : (c : ℕ) → execute_plain recorder jump (jump_to (c ∷ [])) silent ≡ (goto_label, silent)
unfolding execute_plain
jumps c = refl

jump_is_plain : is_plain jump ≡ true
unfolding is_plain
jump_is_plain = refl

sld_handle-find_label_example :
    sld_handle recorder wizard (machine (record (jumping b'a') { state = execute }) [] silent)
    ≡ some (
        machine
          (landed (last_offset 0 lines) (find_label (target (jumping b'a')) lines) (jumping b'a'))
          []
          silent)
sld_handle-find_label_example =
    sld_handle-find_label recorder wizard (jumping b'a') [] silent silent lines refl jump_is_plain
      (jumps b'a') (jump-Reads b'a')

missing : find_label (target (jumping b'z')) lines ≡ none
unfolding find_label matches_label is_label c_string str_equal
missing = refl

main_loop-no_label_example :
    (ctx : SldContext) × (main_loop recorder wizard 3
        (machine (record (jumping b'z') { state = execute }) [] silent)
      ≡ some (finished (machine ctx [] silent)))
    × (ctx.state ≡ stop)
    × (ctx.message ≡ missing_label ∷ [])
main_loop-no_label_example =
    main_loop-no_label recorder wizard (jumping b'z') silent silent lines refl refl jump_is_plain
      (jumps b'z') (jump-Reads b'z') missing
