-- ===== src/Sld/Runner/Jumps.antt =====
-- Jumps of player/src/sld/runner.c, and what becomes of a label that is not there.
use lavender.Base.{ℕ, ◌≤◌, ◌≡◌, refl, ap, ◌∙◌, true}
use lavender.Base.{List, [], ◌∷◌, Option, some, none, Bytes, ◌⊎◌, inl, inr}
use lavender.Enc.Session.{Wizard}
use lavender.Sld.Entry.{SldEntry, c_string}
use lavender.Sld.Runner.State.{
  load, execute, stop, missing_label, Script, SldContext, Shared, goto_label, Player,
}
use lavender.Sld.Runner.Execute.{execute_plain, text_of_content}
use lavender.Sld.Runner.Labels.{Went, arrived, no_label, go_to, label_message}
use lavender.Sld.Runner.Lines.{
  Line, Reads, at_end, line, last_offset, find_label, looked_up, go_to-find_label,
}
use lavender.Sld.Runner.{
  machine, finished, main_loop, goes_on, sld_handle, handle_context, handle_state, handle_execute,
  executed_step, next_state,
}
use lavender.Sld.Runner.Steps.{
  is_plain, handle_running-goes, execute_entry-plain, GoesOn, tick, sld_handle-stop,
}
use lavender.Sld.Runner.Runs.{main_loop-step}

-- The label that an entry jumps to.
abbrev pub target : SldContext → Bytes
target ctx = c_string (text_of_content ctx.entry.content)

last_offset-end :
    {script : Script} {offset : ℕ} {e : SldEntry} {lines : List Line}
    → Reads script offset e lines
    → script.script_size ≤ last_offset offset lines
unfolding last_offset
last_offset-end (at_end over) = over
last_offset-end (line n found below read reads) = last_offset-end reads

-- Where a jump leaves its context: behind the label, or behind the last line with a message. The message lies where the
-- entry is, which counts no more then.
abbrev pub landed : (last : ℕ) → Option ℕ → SldContext → SldContext
landed last (some behind) ctx = record ctx { state = load; offset = behind }
landed last none ctx = record ctx { state = load; offset = last; message = missing_label ∷ [] }

option_cases : (o : Option ℕ) → ((n : ℕ) × (o ≡ some n)) ⊎ (o ≡ none)
option_cases none = inr refl
option_cases (some n) = inl (n, refl)

module _ {W : Type 0} (p : Player W) (z : Wizard W) where
  sld_handle-went :
      (ctx : SldContext) (parents : List SldContext) (s s' : Shared W)
      → GoesOn p s
      → is_plain ctx.entry.sld_type ≡ true
      → execute_plain p ctx.entry.sld_type ctx.entry (tick p s) ≡ (goto_label, s')
      → (r : ℕ × Went) → go_to ctx.script (target ctx) ctx.entry ≡ some r
      → sld_handle p z (machine (record ctx { state = execute }) parents s)
        ≡ some (
            machine
              (record ctx { state = load; offset = r.0; message = label_message r.1 ctx.message })
              parents
              s')
  unfolding sld_handle handle_context handle_state handle_execute executed_step next_state
  sld_handle-went ctx parents s s' h plain run r gone =
      handle_running-goes p z (record ctx { state = execute }) parents s h
      ∙ rw
          (
            execute_entry-plain p z ctx.entry.sld_type (record ctx { state = execute }) (tick p s)
                s' goto_label plain run,
            gone,
          )
          refl

  -- A step that executes a line which jumps, over a script whose lines load, while the platform does not ask to quit: the
  -- context is in SLD_STATE_LOAD behind the first label of the name, and the rest of it is as it was; or, where no line is that
  -- label, it is in SLD_STATE_LOAD behind the last line with the message IDS_NOLABEL.
  pub sld_handle-find_label :
      (ctx : SldContext) (parents : List SldContext) (s s' : Shared W) (lines : List Line)
      → GoesOn p s
      → is_plain ctx.entry.sld_type ≡ true
      → execute_plain p ctx.entry.sld_type ctx.entry (tick p s) ≡ (goto_label, s')
      → Reads ctx.script 0 ctx.entry lines
      → sld_handle p z (machine (record ctx { state = execute }) parents s)
        ≡ some
            (machine (landed (last_offset 0 lines) (find_label (target ctx) lines) ctx) parents s')
  unfolding label_message
  sld_handle-find_label ctx parents s s' lines h plain run reads =
      let gone = go_to-find_label ctx.script (target ctx) ctx.entry lines reads in
      let step = sld_handle-went ctx parents s s' h plain run in
      elim (option_cases (find_label (target ctx) lines)) [
        | inl (behind, e) ↦
            step (behind, arrived)
              (gone ∙ ap (λ (o : Option ℕ). some (looked_up (last_offset 0 lines) o)) e)
            ∙ rw e refl
        | inr e ↦
            step (last_offset 0 lines, no_label)
              (gone ∙ ap (λ (o : Option ℕ). some (looked_up (last_offset 0 lines) o)) e)
            ∙ rw e refl
      ]

  -- A jump to a label that no line of the first script has, over a script whose lines load and while the platform does not
  -- ask to quit, ends the program like the end of the script: within three rounds `main` leaves its loop with SLD_STATE_STOP,
  -- which is no error, though the context has the message IDS_NOLABEL.
  pub main_loop-no_label :
      (ctx : SldContext) (s s' : Shared W) (lines : List Line)
      → GoesOn p s
      → GoesOn p s'
      → is_plain ctx.entry.sld_type ≡ true
      → execute_plain p ctx.entry.sld_type ctx.entry (tick p s) ≡ (goto_label, s')
      → Reads ctx.script 0 ctx.entry lines
      → find_label (target ctx) lines ≡ none
      → (ctx' : SldContext) × (main_loop p z 3 (machine (record ctx { state = execute }) [] s)
          ≡ some (finished (machine ctx' [] (tick p s'))))
        × (ctx'.state ≡ stop)
        × (ctx'.message ≡ missing_label ∷ [])
  unfolding goes_on main_loop
  main_loop-no_label ctx s s' lines h h' plain run reads missing =
      let last = last_offset 0 lines in
      let end = landed last none ctx in
      let step : sld_handle p z (machine (record ctx { state = execute }) [] s)
          ≡ some (machine end [] s') =
        sld_handle-find_label ctx [] s s' lines h plain run reads
        ∙ ap (λ (o : Option ℕ). some (machine (landed last o ctx) [] s')) missing in
      (
        record end { state = stop },
        main_loop-step p z 2 (machine (record ctx { state = execute }) [] s) (machine end [] s')
              refl step
            ∙ main_loop-step p z 1 (machine end [] s')
                (machine (record end { state = stop }) [] (tick p s')) refl
                (sld_handle-stop p z end [] s' h' (last_offset-end reads)),
        refl,
        refl,
      )
