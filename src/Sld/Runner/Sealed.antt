-- ===== src/Sld/Runner/Sealed.antt =====
-- A script that calls an encrypted one whose key it gives: from `__sld_handle_script_call` of player/src/sld/call.c
-- through `enc_handle` of player/src/enc/enc.c to the context that is entered.
use lavender.Base.{ℕ, ◌%◌, ◌^◌, ◌≤◌, ◌<◌, ◌≡◌, refl, ap, ◌∙◌, Bool, true, false}
use lavender.Base.{List, [], ◌∷◌, ◌++◌, Option, some, All, length, take, ◌==◌}
use lavender.Zip.Crc.{calculate_crc}
use lavender.Cipher.Des.Stream.{to_bytes, ◌>>=◌}
use lavender.Cipher.Des.Stream.Blocks.{IsBlock, bytes_of}
use lavender.Cipher.Des.Stream.Whole.{IsByte}
use lavender.Cipher.Des.Stream.Encrypt.{cbc_encrypt, text_of}
use lavender.Enc.{tdes, continue, EncContext}
use lavender.Enc.Content.{cleared, enc_access_content}
use lavender.Enc.Content.Opens.{schedule}
use lavender.Enc.Caller.Laws.{hex}
use lavender.Enc.Session.{Wizard}
use lavender.Sld.Entry.{SldType, call, Content, script_call}
use lavender.Sld.Entry.Call.{ScriptCall}
use lavender.Sld.Runner.State.{
  load, execute, Script, CallState, prepare, enter, decode, SldContext, Shared, Executed, again,
  Player,
}
use lavender.Sld.Runner.Calls.{
  sld_create_context, prepare_by, name_of, data_of, source_of, tdes_source, common_source, started,
  handle_prepare, prepare_encrypted, handle_enter, handle_script_call,
}
use lavender.Sld.Runner.Execute.{execute_entry, execute_call}
use lavender.Sld.Runner.{
  Machine, machine, sld_handle, handle_context, handle_execute, executed_step, next_state,
}
use lavender.Sld.Runner
use lavender.Sld.Runner.Steps.{handle_running-goes, GoesOn, tick}

-- What an encrypted script is that a call opens: the call names triple DES and gives both keys in hexadecimal
-- digits, and the script is what CBC encryption made of a text, padded by at most eight bytes.
pub record IsSealed (c : ScriptCall) (script : Script) (first second iv : ℕ) (ps : List ℕ) (q : ℕ)
    : Type 0 where
  pub method : c.method ≡ 3
  pub parameter : c.parameter ≡ 0
  pub given : c.call_data ≡ hex (to_bytes first ++ to_bytes second)
  pub first_ok : first < 2 ^ 64
  pub second_ok : second < 2 ^ 64
  pub blocks : All IsBlock (iv ∷ ps ++ q ∷ [])
  pub pad : q % 256 ≤ 8
  pub fits : script.script_size ≤ length script.script_data
  pub below : script.script_size < 2 ^ 31
  pub bytes : All IsByte (take script.script_size script.script_data)
  pub made :
      take script.script_size script.script_data
      ≡ bytes_of (iv ∷ cbc_encrypt (schedule tdes first second) 16 iv (ps ++ q ∷ []))
  pub sum : c.crc32 ≡ calculate_crc (text_of ps q)

-- The context of the content that `enc_access_content` makes for the call.
abbrev pub sealed_context : ScriptCall → Script → EncContext
sealed_context c script =
    cleared tdes 0 (data_of c) (take script.script_size script.script_data) script.script_size
      c.crc32

source_of-inline :
    (c : ScriptCall) → c.method ≡ 3 → c.parameter ≡ 0 → source_of c ≡ (tdes, 0, data_of c)
unfolding source_of tdes_source common_source
source_of-inline c method parameter = simp (method, parameter)

-- A context that executes the call, in a state of it.
abbrev pub calling : SldContext → CallState → SldContext
calling ctx state_of_call = record ctx { state = execute; call_state = state_of_call }

module _ {W : Type 0} (p : Player W) (z : Wizard W) (c : ScriptCall)
    (parents : List SldContext) where
  module _ (ctx : SldContext) (kind : ctx.entry.sld_type ≡ call)
      (content : ctx.entry.content ≡ script_call c) where
    execute_entry-call :
        (state_of_call : CallState) (s : Shared W)
        → execute_entry p z ctx.entry.sld_type (calling ctx state_of_call) s
          ≡ handle_script_call p z c state_of_call (calling ctx state_of_call) s
    unfolding execute_entry execute_call
    execute_entry-call state_of_call s =
        ap (λ (k : SldType). execute_entry p z k (calling ctx state_of_call) s) kind
        ∙ ap (λ (k : Content). execute_call p z k (calling ctx state_of_call) s) content

    -- A step of the call that goes on.
    pub sld_handle-again :
        (before after : CallState) (s s' : Shared W)
        → GoesOn p s
        → handle_script_call p z c before (calling ctx before) (tick p s)
          ≡ some (again, calling ctx after, s')
        → sld_handle p z (machine (calling ctx before) parents s)
          ≡ some (machine (calling ctx after) parents s')
    unfolding sld_handle handle_context Runner.handle_state handle_execute executed_step
    sld_handle-again before after s s' h run =
        handle_running-goes p z (calling ctx before) parents s h
        ∙ ap (and_then_step) (execute_entry-call before (tick p s) ∙ run)
      where
        and_then_step : Option (Executed × SldContext × Shared W) → Option (Machine W)
        and_then_step o = o >>= (λ r. executed_step p z r.0 r.1 parents r.2)

    -- The step that enters the called script.
    pub sld_handle-enter :
        (script : Script) (s : Shared W)
        → GoesOn p s
        → sld_handle p z (machine (calling ctx (enter script)) parents s)
          ≡ some (
              machine
                (started script)
                (record ctx { state = load; call_state = prepare } ∷ parents)
                (tick p s))
    unfolding sld_handle handle_context Runner.handle_state handle_execute executed_step next_state
        handle_script_call handle_enter
    sld_handle-enter script s h =
        handle_running-goes p z (calling ctx (enter script)) parents s h
        ∙ ap (and_then_step) (execute_entry-call (enter script) (tick p s))
      where
        and_then_step : Option (Executed × SldContext × Shared W) → Option (Machine W)
        and_then_step o = o >>= (λ r. executed_step p z r.0 r.1 parents r.2)

    -- The step that opens the file, where its content is not found to be decrypted already.
    pub handle_prepare-decode :
        (script : Script) (s : Shared W)
        → c.method ≡ 3
        → c.parameter ≡ 0
        → (sld_create_context p (name_of c) true s.world).0 ≡ some script
        → enc_access_content tdes 0
            (data_of c)
            (take script.script_size script.script_data)
            script.script_size
            c.crc32
          ≡ some (continue, sealed_context c script)
        → handle_script_call p z c prepare (calling ctx prepare) s
          ≡ some (
            again,
            calling ctx (decode script (sealed_context c script)),
            record s { world = (sld_create_context p (name_of c) true s.world).1; accumulator = 0 },
          )
    unfolding handle_script_call handle_prepare prepare_by prepare_encrypted
    handle_prepare-decode script s method parameter there locked =
        let stored : (c.method == 0) ≡ false = simp method in
        let chosen = source_of-inline c method parameter in
        ap (λ (b : Bool). prepare_by p z b c (calling ctx prepare) s) stored
        ∙ rw (prepare_by, there, prepare_encrypted, chosen, locked) refl
