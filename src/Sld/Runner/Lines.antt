-- ===== src/Sld/Runner/Lines.antt =====
-- A script as the list of its lines, and `_goto_label` of player/src/sld/runner.c as a lookup in that list.
use lavender.Base.{ℕ, zero, suc, ◌+◌, ◌≤◌, ◌<◌, ◌≡◌, refl, ◌∙◌, true, false, inl, inr, arith}
use lavender.Base.{List, [], ◌∷◌, Option, some, none, Bytes, ltb, if◌then◌else◌, Bool-cases}
use lavender.Sld.Loader.{loaded}
use lavender.Sld.Entry.{SldEntry, sld_load_entry}
use lavender.Sld.Entry.Progress.{sld_load_entry-moves}
use lavender.Sld.Runner.State.{Script}
use lavender.Sld.Runner.Labels.{Went, arrived, no_label, matches_label, seek_label, go_to}

-- A line: its entry, and the offset behind it.
pub record Line : Type 0 where
  pub entry : SldEntry
  pub behind : ℕ

-- The lines that a script has from an offset on, loaded one over the other.
pub data Reads (script : Script) : ℕ → SldEntry → List Line → Type 0 where
  at_end : {offset : ℕ} {e : SldEntry} → script.script_size ≤ offset → Reads script offset e []
  line :
      {offset : ℕ} (n : ℕ) {e : SldEntry} (found : SldEntry) {lines : List Line}
      → offset < script.script_size
      → sld_load_entry script.script_data offset e ≡ some (loaded n found)
      → Reads script (offset + n) found lines
      → Reads script offset e (record { entry = found; behind = offset + n } ∷ lines)

-- The offset behind the first line that is a label of the name.
unfoldable pub find_label : Bytes → List Line → Option ℕ
find_label name [] = none
find_label name (l ∷ lines) =
    if matches_label name l.entry then some l.behind else find_label name lines

-- The offset behind the last line.
unfoldable pub last_offset : ℕ → List Line → ℕ
last_offset offset [] = offset
last_offset offset (l ∷ lines) = last_offset l.behind lines

-- What a lookup stands for.
abbrev pub looked_up : ℕ → Option ℕ → ℕ × Went
looked_up last none = (last, no_label)
looked_up last (some behind) = (behind, arrived)

seek_label-end :
    (rounds : ℕ) (script : Script) (name : Bytes) (offset : ℕ) (e : SldEntry)
    → script.script_size ≤ offset
    → seek_label (suc rounds) script name offset e ≡ some (offset, no_label)
unfolding seek_label
seek_label-end rounds script name offset e h =
    let test : ltb offset script.script_size ≡ false = ground arith in rw (test, seek_label) refl

seek_label-line :
    (rounds : ℕ) (script : Script) (name : Bytes) (offset n : ℕ) (e found : SldEntry)
    → offset < script.script_size
    → sld_load_entry script.script_data offset e ≡ some (loaded n found)
    → seek_label (suc rounds) script name offset e ≡ elim (matches_label name found) [
      | true ↦ some (offset + n, arrived)
      | false ↦ seek_label rounds script name (offset + n) found
    ]
unfolding seek_label
seek_label-line rounds script name offset n e found h read =
    let test : ltb offset script.script_size ≡ true = ground arith in
    rw (test, read, seek_label) refl

seek_label-looked_up :
    (rounds : ℕ) (script : Script) (name : Bytes) {offset : ℕ} {e : SldEntry} {lines : List Line}
    → Reads script offset e lines
    → 1 ≤ rounds
    → script.script_size < offset + rounds
    → seek_label rounds script name offset e
      ≡ some (looked_up (last_offset offset lines) (find_label name lines))
unfolding find_label last_offset
seek_label-looked_up zero script name {offset} {e} (at_end over) one enough = absurd (omega arith)
seek_label-looked_up (suc rounds) script name {offset} {e} (at_end over) one enough =
    seek_label-end rounds script name offset e over
seek_label-looked_up zero script name (line n found below read reads) one enough =
    absurd (omega arith)
seek_label-looked_up (suc rounds) script name {offset} {e} (line n found {lines} below read reads)
      one enough =
    let moved = sld_load_entry-moves script.script_data offset e found n read in
    let rest = seek_label-looked_up rounds script name reads (omega arith) (omega arith) in
    seek_label-line rounds script name offset n e found below read
    ∙ (elim (Bool-cases (matches_label name found)) [ inl b ↦ rw b refl | inr b ↦ rw b rest ])

-- `_goto_label` ends in a script whose lines load, and is a lookup in the list of them: it goes to the offset behind the first label of
-- the name, or behind the last line where there is none.
pub go_to-find_label :
    (script : Script) (name : Bytes) (e : SldEntry) (lines : List Line)
    → Reads script 0 e lines
    → go_to script name e ≡ some (looked_up (last_offset 0 lines) (find_label name lines))
unfolding go_to
go_to-find_label script name e lines reads =
    seek_label-looked_up (suc script.script_size) script name reads (omega arith) (omega arith)
