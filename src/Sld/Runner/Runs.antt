-- ===== src/Sld/Runner/Runs.antt =====
-- Whole runs of `main` of player/src/main.c over `sld_handle`.
use lavender.Base.{ℕ, zero, suc, ◌+◌, ◌*◌, ◌≡◌, refl, ap, sym, ◌∙◌, true, arith}
use lavender.Base.{List, [], ◌∷◌, some, length}
use mathlib.Core.Path.{subst}
use lavender.Enc.Session.{Wizard}
use lavender.Sld.Entry.{SldEntry}
use lavender.Sld.Runner.State.{
  SldState, load, execute, stop, failed, Failure, sld_argerr, exec_error, no_type, prepare, Script,
  SldContext, Shared, done, Player,
}
use lavender.Sld.Runner.Execute.{execute_plain}
use lavender.Sld.Runner.Calls.{started}
use lavender.Sld.Runner.Lines.{Line, Reads, at_end, line, last_offset}
use lavender.Sld.Runner.{
  Machine, machine, finished, unfinished, main_loop, goes_on, sld_handle, handle_context,
  handle_state, handle_failed,
}
use lavender.Sld.Runner.Steps.{
  is_plain, handle_running-goes, GoesOn, tick, sld_handle-load, sld_handle-execute, sld_handle-stop,
}

-- What the lines of a script do one after the other, where none has a delay, waits for a key or calls a script, each succeeds
-- as it is executed and no jump is taken, and the platform does not ask to quit.
pub data Performs {W : Type 0} (p : Player W) : List Line → Shared W → Shared W → Type 0 where
  over : {s : Shared W} → GoesOn p s → Performs p [] s (tick p s)
  next :
      {l : Line} {lines : List Line} {s s' s'' : Shared W}
      → GoesOn p s
      → GoesOn p (tick p s)
      → l.entry.delay ≡ 0
      → is_plain l.entry.sld_type ≡ true
      → execute_plain p l.entry.sld_type l.entry (tick p (tick p s)) ≡ (done, s')
      → Performs p lines s' s''
      → Performs p (l ∷ lines) s s''

module _ {W : Type 0} (p : Player W) (z : Wizard W) where
  pub main_loop-step :
      (rounds : ℕ) (m m' : Machine W)
      → goes_on m.contexts ≡ true
      → sld_handle p z m ≡ some m'
      → main_loop p z (suc rounds) m ≡ main_loop p z rounds m'
  unfolding main_loop
  main_loop-step rounds m m' going run = rw (going, run, main_loop) refl

  -- A context at a line of a script.
  abbrev placed : SldContext → Script → ℕ → SldEntry → SldContext
  placed ctx script offset e = record ctx {
    script = script;
    offset = offset;
    entry = e;
    state = load;
  }

  main_loop-lines :
      (script : Script) {offset : ℕ} {e : SldEntry} {lines : List Line} {s s'' : Shared W}
      (ctx : SldContext)
      → Reads script offset e lines
      → Performs p lines s s''
      → (ctx' : SldContext) × (main_loop p z
            (2 * length lines + 2)
            (machine (placed ctx script offset e) [] s)
          ≡ some (finished (machine ctx' [] s'')))
        × (ctx'.state ≡ stop)
        × (ctx'.offset ≡ last_offset offset lines)
  unfolding goes_on last_offset main_loop
  main_loop-lines script {offset} {e} {s = s} ctx (at_end behind) (over h) = (
    record (placed ctx script offset e) { state = stop },
    main_loop-step 1 (machine (placed ctx script offset e) [] s)
        (machine (record (placed ctx script offset e) { state = stop }) [] (tick p s)) refl
        (sld_handle-stop p z (placed ctx script offset e) [] s h behind),
    refl,
    refl,
  )
  main_loop-lines script {offset} {e} {s = s} ctx (line n found {lines = rest} below read reads)
        (next {s' = s'} h h' no_delay plain run performs) =
      let start = placed ctx script offset e in
      let loaded_line = record start { offset = offset + n; entry = found; call_state = prepare } in
      let (ctx', runs, stopped, last) = main_loop-lines script loaded_line reads performs in
      let rounds : 2 * length (record { entry = found; behind = offset + n } ∷ rest) + 2
          ≡ suc (suc (2 * length rest + 2)) =
        omega arith in
      (
        ctx',
        ap (λ (k : ℕ). main_loop p z k (machine start [] s)) rounds
            ∙ main_loop-step (suc (2 * length rest + 2)) (machine start [] s)
                (machine (record loaded_line { state = execute }) [] (tick p s)) refl
                (sld_handle-load p z start [] s n found h below read no_delay)
            ∙ main_loop-step (2 * length rest + 2)
                (machine (record loaded_line { state = execute }) [] (tick p s))
                (machine loaded_line [] s') refl
                (sld_handle-execute p z loaded_line [] (tick p s) s' h' plain run)
            ∙ runs,
        stopped,
        last,
      )

-- `main` ends on a script whose lines load, where none has a delay, waits for a key or calls a script, each succeeds as it is
-- executed in its turn and no jump is taken, as long as the platform does not ask to quit: within two rounds for each line
-- and two more it executes the lines in their order, each once, and stops behind the last one.
pub main_loop-Performs :
    {W : Type 0} (p : Player W) (z : Wizard W) (script : Script) (lines : List Line)
    (s s'' : Shared W)
    → Reads script 0 (started script).entry lines
    → Performs p lines s s''
    → (ctx : SldContext) × (main_loop p z (2 * length lines + 2) (machine (started script) [] s)
        ≡ some (finished (machine ctx [] s'')))
      × (ctx.state ≡ stop)
      × (ctx.offset ≡ last_offset 0 lines)
main_loop-Performs p z script lines s s'' reads performs =
    main_loop-lines p z script (started script) reads performs

module _ {W : Type 0} (p : Player W) (z : Wizard W) (quiet : (s : Shared W) → GoesOn p s) where
  -- After so many rounds a script that has failed is still there, over a caller that is as it was.
  abbrev Stays : ℕ → SldContext → SldContext → Shared W → Type 0
  Stays rounds child ctx s =
      (child' : SldContext) × (s' : Shared W) × (f' : Failure) × (main_loop p z rounds
          (machine child (ctx ∷ []) s)
        ≡ some (unfinished (machine child' (ctx ∷ []) s')))
      × (child'.state ≡ failed f')

  sld_handle-failed :
      (child : SldContext) (parents : List SldContext) (s : Shared W) (f : Failure)
      → sld_handle p z (machine (record child { state = failed f }) parents s)
        ≡ some (
            machine
              (record child { state = failed sld_argerr; message = exec_error ∷ no_type ∷ [] })
              parents
              (tick p s))
  unfolding sld_handle handle_context handle_state handle_failed
  sld_handle-failed child parents s f =
      handle_running-goes p z (record child { state = failed f }) parents s (quiet s)

  never_ends :
      (rounds : ℕ) (child ctx : SldContext) (s : Shared W) (f : Failure)
      → Stays rounds (record child { state = failed f }) (record ctx { state = load }) s
  unfolding main_loop goes_on
  never_ends zero child ctx s f = (record child { state = failed f }, s, f, refl, refl)
  never_ends (suc rounds) child ctx s f =
      let going = record ctx { state = load } in
      let child' = record child {
        state = failed sld_argerr;
        message = exec_error ∷ no_type ∷ [];
      } in
      let (last, s', f', run, bad) =
        never_ends rounds (record child { message = exec_error ∷ no_type ∷ [] }) ctx (tick p s)
          sld_argerr in
      (
        last,
        s',
        f',
        main_loop-step p z rounds (machine (record child { state = failed f }) (going ∷ []) s)
              (machine child' (going ∷ []) (tick p s)) refl
              (sld_handle-failed child (going ∷ []) s f)
            ∙ run,
        bad,
      )

-- Where a script that the first one called has failed, the first one is in SLD_STATE_LOAD, and the platform never asks to
-- quit, `main` never ends: after any number of rounds, none of which faults, a context in a state that is an error still
-- runs over that of the first script, which is as it was.
pub main_loop-failed :
    {W : Type 0} (p : Player W) (z : Wizard W) (rounds : ℕ) (child ctx : SldContext) (s : Shared W)
    (f : Failure)
    → ((s : Shared W) → GoesOn p s)
    → child.state ≡ failed f
    → ctx.state ≡ load
    → (child' : SldContext) × (s' : Shared W) × (f' : Failure) × (main_loop p z rounds
          (machine child (ctx ∷ []) s)
        ≡ some (unfinished (machine child' (ctx ∷ []) s')))
      × (child'.state ≡ failed f')
main_loop-failed p z rounds child ctx s f quiet bad going =
    subst (λ (c : SldContext). Stays p z quiet rounds child c s)
      (ap (λ (b : SldState). record ctx { state = b }) (sym going))
      (subst (λ (c : SldContext). Stays p z quiet rounds c (record ctx { state = load }) s)
        (ap (λ (a : SldState). record child { state = a }) (sym bad))
        (never_ends p z quiet rounds child ctx s f))
