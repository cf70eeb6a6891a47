-- ===== src/Sld/Runner.antt =====
-- `sld_handle` of player/src/sld/runner.c, with context.c, and what a script is executed with. It is built with
-- CONFIG_SOUND, and without CONFIG_HAVE_TIMER and CONFIG_HAVE_GFX_SCALING.
pub mod State
pub mod Calls
pub mod Execute
pub mod Labels
pub mod Lines
pub mod Steps
pub mod Runs
pub mod Jumps
pub mod Sealed
pub mod Opened
use lavender.Base.{ℕ, zero, suc, ◌+◌, Bool, true, false, List, [], ◌∷◌, Option, some, none, Bytes}
use lavender.Base.{ltb, leb, ◌==◌, not, ◌&&◌, if◌then◌else◌, bit_and, u16, u32}
use lavender.Cipher.Des.Stream.{◌>>=◌}
use lavender.Enc.Session.{Wizard}
use lavender.Sld.Areas.{retrieve_tag}
use lavender.Sld.Loader.{Message, Loaded, loaded, argerr}
use lavender.Sld.Entry.{SldEntry, sld_load_entry}
use lavender.Sld.Runner.State.{
  SldState, load, execute, delay, wait, stop, quit, failed, sld_argerr, prepare, load_error,
  exec_error, no_type, loading, SldContext, Shared, Executed, done, again, goto_label, entered,
  error, Player,
}
use lavender.Sld.Entry.{c_string}
use lavender.Sld.Runner.Execute.{execute_entry, text_of_content}
use lavender.Sld.Runner.Labels.{label_message, go_to}

-- `__sld_ctx` with its parents, the first one running, and the rest of the state.
pub record Machine (W : Type 0) : Type 0 where
  pub contexts : List SldContext
  pub shared : Shared W

-- What a step leaves: the context that runs, over its parents.
abbrev pub machine : {W : Type 0} → SldContext → List SldContext → Shared W → Machine W
machine ctx parents s = record { contexts = ctx ∷ parents; shared = s }

module _ {W : Type 0} (p : Player W) (z : Wizard W) where
  -- The states SLD_STATE_STOP and SLD_QUIT: the context is left and closed.
  unfoldable pub leave_stopped : SldContext → List SldContext → Shared W → Machine W
  leave_stopped ctx parents s = record {
    contexts = parents;
    shared = record s { world = p.close_asset ctx.script.asset s.world };
  }

  unfoldable pub leave_quit : SldContext → List SldContext → Shared W → Option (Machine W)
  leave_quit ctx [] s = none
  leave_quit ctx (parent ∷ parents) s = some (
      machine (record parent { state = quit }) parents
        (record s { world = p.close_asset ctx.script.asset s.world }))

  -- SLD_STATE_WAIT without a key: the active area under the pointer.
  unfoldable pub handle_mouse : SldContext → List SldContext → Shared W → Machine W
  handle_mouse ctx parents s =
      let (pointer, w) = p.get_mouse s.world in
      let tag = retrieve_tag s.areas pointer.0 pointer.1 in
      if not (tag == 0)
      then machine (record ctx { state = load }) parents
          (record s {
            world = w;
            accumulator = if bit_and pointer.2 1 == 0 then u16 (10000 + tag) else tag;
          })
      else if ltb 10000 s.accumulator
      then machine (record ctx { state = load }) parents
          (record s { world = w; accumulator = 10000 })
      else machine ctx parents (record s { world = w })

  unfoldable pub handle_wait : SldContext → List SldContext → Shared W → Machine W
  unfolding handle_mouse
  handle_wait ctx parents s =
      let (keystroke, w) = p.get_keystroke s.world in
      if not (keystroke == 0)
      then machine (record ctx { state = load }) parents
          (record s { world = w; accumulator = keystroke })
      else handle_mouse ctx parents (record s { world = w })

  -- SLD_STATE_LOAD behind `sld_load_entry`.
  unfoldable pub loaded_step : Loaded SldEntry → SldContext → List SldContext → Shared W → Machine W
  loaded_step (argerr m) ctx parents s =
      machine (record ctx { state = failed sld_argerr; message = load_error ∷ loading m ∷ [] })
        parents s
  loaded_step (loaded n e) ctx parents s =
      let ctx' = record ctx { offset = ctx.offset + n; entry = e; call_state = prepare } in
      if e.delay == 0
      then machine (record ctx' { state = execute }) parents s
      else (let (counter, w) = p.get_counter s.world in
          machine (record ctx' { state = delay; next_step = u32 (counter + p.get_ticks e.delay) })
            parents (record s { world = w }))

  unfoldable pub handle_load : SldContext → List SldContext → Shared W → Option (Machine W)
  unfolding loaded_step
  handle_load ctx parents s = elim (ltb ctx.offset ctx.script.script_size) [
    | false ↦ some (machine (record ctx { state = stop }) parents s)
    | true ↦ (do
      r ← sld_load_entry ctx.script.script_data ctx.offset ctx.entry
      some (loaded_step r ctx parents s))
  ]

  -- SLD_STATE_DELAY
  unfoldable pub handle_delay : SldContext → List SldContext → Shared W → Machine W
  handle_delay ctx parents s =
      let (_, w) = p.get_keystroke s.world in
      let (counter, w') = p.get_counter w in
      machine (record ctx { state = if ltb ctx.next_step counter then execute else delay }) parents
        (record s { world = w' })

  -- The state behind an entry that is executed.
  unfoldable pub next_state : SldState → SldState
  next_state execute = load
  next_state other = other

  -- SLD_STATE_EXECUTE behind `_execute_entry`. What `_goto_label` returns is not looked at.
  unfoldable pub executed_step :
      Executed → SldContext → List SldContext → Shared W → Option (Machine W)
  unfolding next_state label_message
  executed_step again ctx parents s = some (machine ctx parents s)
  executed_step (error f notices) ctx parents s =
      some (machine (record ctx { state = failed f; message = exec_error ∷ notices }) parents s)
  executed_step done ctx parents s =
      some (machine (record ctx { state = next_state ctx.state }) parents s)
  executed_step (entered child) ctx parents s =
      some (machine child (record ctx { state = next_state ctx.state } ∷ parents) s)
  executed_step goto_label ctx parents s = do
    (offset, went) ← go_to ctx.script (c_string (text_of_content ctx.entry.content)) ctx.entry
    some (
        machine
          (record ctx {
            state = next_state ctx.state;
            offset = offset;
            message = label_message went ctx.message;
          })
          parents s)

  unfoldable pub handle_execute : SldContext → List SldContext → Shared W → Option (Machine W)
  unfolding executed_step
  handle_execute ctx parents s = do
    (executed, ctx', s') ← execute_entry p z ctx.entry.sld_type ctx s
    executed_step executed ctx' parents s'

  -- Executing in a state that is an error: the entry is the text of the message by now, whose seventh and eighth
  -- character are the number of no type.
  unfoldable pub handle_failed : SldContext → List SldContext → Shared W → Machine W
  handle_failed ctx parents s =
      machine (record ctx { state = failed sld_argerr; message = exec_error ∷ no_type ∷ [] })
        parents s

  -- `sld_handle` behind `snd_handle`, by the state.
  unfoldable pub handle_state :
      SldState → SldContext → List SldContext → Shared W → Option (Machine W)
  unfolding leave_stopped leave_quit handle_wait handle_load handle_delay handle_execute
      handle_failed
  handle_state stop ctx parents s = some (leave_stopped ctx parents s)
  handle_state quit ctx parents s = leave_quit ctx parents s
  handle_state wait ctx parents s = some (handle_wait ctx parents s)
  handle_state load ctx parents s = handle_load ctx parents s
  handle_state delay ctx parents s = some (handle_delay ctx parents s)
  handle_state execute ctx parents s = handle_execute ctx parents s
  handle_state (failed f) ctx parents s = some (handle_failed ctx parents s)

  -- `sld_handle` over the context that runs.
  unfoldable pub handle_running : SldContext → List SldContext → Shared W → Option (Machine W)
  unfolding handle_state
  handle_running ctx parents s =
      let (goes_on, w) = p.pal_handle s.world in
      elim goes_on [
        | false ↦ some (machine (record ctx { state = quit }) parents (record s { world = w }))
        | true ↦ handle_state ctx.state ctx parents (record s { world = p.snd_handle w })
      ]

  unfoldable pub handle_context :
      SldState → SldContext → List SldContext → Shared W → Option (Machine W)
  unfolding handle_state handle_running
  handle_context quit ctx parents s =
      handle_state quit ctx parents (record s { world = p.snd_handle s.world })
  handle_context _ ctx parents s = handle_running ctx parents s

  -- `sld_handle`. Without a context, `ctx->state` is a null pointer's.
  unfoldable pub sld_handle : Machine W → Option (Machine W)
  unfolding handle_context
  sld_handle m = elim m.contexts [
    | [] ↦ none
    | ctx ∷ parents ↦ handle_context ctx.state ctx parents m.shared
  ]

-- Whether `main` of player/src/main.c goes on: the state of the first script, the last of the contexts.
unfoldable pub goes_on : List SldContext → Bool
goes_on [] = false
goes_on (ctx ∷ []) = elim ctx.state [ stop ↦ false | quit ↦ false | failed f ↦ false | _ ↦ true ]
goes_on (ctx ∷ parent ∷ parents) = goes_on (parent ∷ parents)

-- What the loop of `main` comes to: it ends, or its rounds are used up.
pub data Looped (W : Type 0) : Type 0 where
  finished unfinished : Machine W → Looped W

-- The loop of `main`, in so many rounds; `none` is a fault.
unfoldable pub main_loop : {W : Type 0} → Player W → Wizard W → ℕ → Machine W → Option (Looped W)
unfolding goes_on sld_handle
main_loop p z zero m = some (unfinished m)
main_loop p z (suc rounds) m = elim (goes_on m.contexts) [
  | false ↦ some (finished m)
  | true ↦ (do m' ← sld_handle p z m; main_loop p z rounds m')
]
