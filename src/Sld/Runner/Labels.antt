-- ===== src/Sld/Runner/Labels.antt =====
-- `_goto_label` of player/src/sld/runner.c.
use lavender.Base.{ℕ, zero, suc, ◌+◌, Bool, true, false, List, [], ◌∷◌, Option, some, none, Bytes}
use lavender.Base.{ltb, str_equal, if◌then◌else◌}
use lavender.Sld.Loader.{Message, loaded, argerr}
use lavender.Sld.Entry.{SldEntry, SldType, label, sld_load_entry, c_string}
use lavender.Sld.Runner.State.{Script, Notice, missing_label}
use lavender.Sld.Runner.Execute.{text_of_content}

-- The result of `_goto_label`: 0, the error of a line, and that of a label that no line has.
pub data Went : Type 0 where
  arrived no_label : Went
  bad_line : Message → Went

unfoldable pub is_label : SldType → Bool
is_label label = true
is_label _ = false

-- Whether an entry is the label that is looked for.
unfoldable pub matches_label : Bytes → SldEntry → Bool
unfolding is_label
matches_label name e =
    if is_label e.sld_type then str_equal name (c_string (text_of_content e.content)) else false

-- The loop of `_goto_label`, in so many rounds: the offset where it ends, and its result. Its local
-- entry is written over in each round.
unfoldable pub seek_label : ℕ → Script → Bytes → ℕ → SldEntry → Option (ℕ × Went)
unfolding matches_label
seek_label zero script name offset e = none
seek_label (suc rounds) script name offset e =
    let read = sld_load_entry script.script_data offset e in
    elim (ltb offset script.script_size) [
      | false ↦ some (offset, no_label)
      | true ↦ elim read [
        | none ↦ none
        | some (argerr m) ↦ some (offset, bad_line m)
        | some (loaded n found) ↦
            let rest = seek_label rounds script name (offset + n) found in
            elim (matches_label name found) [ true ↦ some (offset + n, arrived) | false ↦ rest ]
      ]
    ]

-- `_goto_label`: a round passes one byte at least, so the bytes are rounds enough.
unfoldable pub go_to : Script → Bytes → SldEntry → Option (ℕ × Went)
go_to script name e = seek_label (suc script.script_size) script name 0 e

-- The message that `_goto_label` leaves: that of a label that no line has, or what was there.
unfoldable pub label_message : Went → List Notice → List Notice
label_message no_label message = missing_label ∷ []
label_message arrived message = message
label_message (bad_line m) message = message
