-- ===== src/Sld/Runner/Steps.antt =====
-- Single steps of `sld_handle` of player/src/sld/runner.c.
use lavender.Base.{ℕ, zero, suc, ◌+◌, ◌<◌, ◌≤◌, ◌≡◌, refl, ap, ◌∙◌, Bool, true, false, arith}
use lavender.Base.{List, Option, some, ltb}
use lavender.Cipher.Des.Stream.{◌>>=◌}
use lavender.Enc.Session.{Wizard}
use lavender.Sld.Loader.{loaded}
use lavender.Sld.Entry.{
  SldEntry, SldType, blank, label, text, bitmap, rect, rectf, play, waitkey, actarea, query, jump,
  jumpe, call, sld_load_entry,
}
use lavender.Sld.Runner.State.{
  load, execute, stop, prepare, SldContext, Shared, Executed, done, Player,
}
use lavender.Sld.Runner.Execute.{execute_entry, execute_plain}
use lavender.Sld.Runner.{
  Machine, machine, sld_handle, handle_context, handle_running, handle_state, handle_load,
  loaded_step, handle_execute, executed_step, next_state,
}

-- The types of entry that do not wait and call no script.
unfoldable pub is_plain : SldType → Bool
is_plain waitkey = false
is_plain call = false
is_plain _ = true

module _ {W : Type 0} (p : Player W) where
  -- That `pal_handle` does not ask to quit, and what a step does before it looks at its state.
  abbrev pub GoesOn : Shared W → Type 0
  GoesOn s = (p.pal_handle s.world).0 ≡ true

  abbrev pub tick : Shared W → Shared W
  tick s = record s { world = p.snd_handle (p.pal_handle s.world).1 }

module _ {W : Type 0} (p : Player W) (z : Wizard W) where
  pub handle_running-goes :
      (ctx : SldContext) (parents : List SldContext) (s : Shared W)
      → GoesOn p s
      → handle_running p z ctx parents s ≡ handle_state p z ctx.state ctx parents (tick p s)
  unfolding handle_running
  handle_running-goes ctx parents s h = rw (h, handle_running) refl

  abbrev with_context : SldContext → Executed × Shared W → Option (Executed × SldContext × Shared W)
  with_context ctx r = some (r.0, ctx, r.1)

  pub execute_entry-plain :
      (kind : SldType) (ctx : SldContext) (s s' : Shared W) (r : Executed)
      → is_plain kind ≡ true
      → execute_plain p kind ctx.entry s ≡ (r, s')
      → execute_entry p z kind ctx s ≡ some (r, ctx, s')
  unfolding execute_entry is_plain
  execute_entry-plain blank ctx s s' r plain h = ap (with_context ctx) h
  execute_entry-plain label ctx s s' r plain h = ap (with_context ctx) h
  execute_entry-plain text ctx s s' r plain h = ap (with_context ctx) h
  execute_entry-plain bitmap ctx s s' r plain h = ap (with_context ctx) h
  execute_entry-plain rect ctx s s' r plain h = ap (with_context ctx) h
  execute_entry-plain rectf ctx s s' r plain h = ap (with_context ctx) h
  execute_entry-plain play ctx s s' r plain h = ap (with_context ctx) h
  execute_entry-plain waitkey ctx s s' r plain h = cc
  execute_entry-plain actarea ctx s s' r plain h = ap (with_context ctx) h
  execute_entry-plain query ctx s s' r plain h = ap (with_context ctx) h
  execute_entry-plain jump ctx s s' r plain h = ap (with_context ctx) h
  execute_entry-plain jumpe ctx s s' r plain h = ap (with_context ctx) h
  execute_entry-plain call ctx s s' r plain h = cc

  -- A line is loaded.
  pub sld_handle-load :
      (ctx : SldContext) (parents : List SldContext) (s : Shared W) (n : ℕ) (e : SldEntry)
      → GoesOn p s
      → ctx.offset < ctx.script.script_size
      → sld_load_entry ctx.script.script_data ctx.offset ctx.entry ≡ some (loaded n e)
      → e.delay ≡ 0
      → sld_handle p z (machine (record ctx { state = load }) parents s)
        ≡ some (
            machine
              (record ctx {
                offset = ctx.offset + n;
                entry = e;
                call_state = prepare;
                state = execute;
              })
              parents
              (tick p s))
  unfolding sld_handle handle_context handle_state handle_load loaded_step
  sld_handle-load ctx parents s n e h below read no_delay =
      let test : ltb ctx.offset ctx.script.script_size ≡ true = ground arith in
      handle_running-goes (record ctx { state = load }) parents s h
      ∙ rw (test, handle_load, read, no_delay) refl

  -- An entry of a plain type is executed.
  pub sld_handle-execute :
      (ctx : SldContext) (parents : List SldContext) (s s' : Shared W)
      → GoesOn p s
      → is_plain ctx.entry.sld_type ≡ true
      → execute_plain p ctx.entry.sld_type ctx.entry (tick p s) ≡ (done, s')
      → sld_handle p z (machine (record ctx { state = execute }) parents s)
        ≡ some (machine (record ctx { state = load }) parents s')
  unfolding sld_handle handle_context handle_state handle_execute executed_step next_state
  sld_handle-execute ctx parents s s' h plain run =
      handle_running-goes (record ctx { state = execute }) parents s h
      ∙ rw
          (execute_entry-plain ctx.entry.sld_type (record ctx { state = execute }) (tick p s) s'
            done plain run)
          refl

  -- Behind the last line the script stops.
  pub sld_handle-stop :
      (ctx : SldContext) (parents : List SldContext) (s : Shared W)
      → GoesOn p s
      → ctx.script.script_size ≤ ctx.offset
      → sld_handle p z (machine (record ctx { state = load }) parents s)
        ≡ some (machine (record ctx { state = stop }) parents (tick p s))
  unfolding sld_handle handle_context handle_state handle_load
  sld_handle-stop ctx parents s h over =
      let test : ltb ctx.offset ctx.script.script_size ≡ false = ground arith in
      handle_running-goes (record ctx { state = load }) parents s h ∙ rw (test, handle_load) refl

  -- So many steps.
  unfoldable pub steps : ℕ → Machine W → Option (Machine W)
  unfolding sld_handle
  steps zero m = some m
  steps (suc n) m = do m' ← sld_handle p z m; steps n m'

  pub steps-suc :
      (n : ℕ) (m m' : Machine W) → sld_handle p z m ≡ some m' → steps (suc n) m ≡ steps n m'
  unfolding steps
  steps-suc n m m' run = rw run refl
