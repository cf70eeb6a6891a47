-- ===== src/Sld/Runner/Opened.antt =====
-- The whole way of player/src/sld/runner.c from the line that calls an encrypted script to the context that is entered.
use lavender.Base.{ℕ, zero, suc, ◌≤◌, ◌<◌, ◌≡◌, refl, ap, sym, ◌∙◌, true, false, arith}
use lavender.Base.{
  Bytes, List, [], ◌∷◌, ◌++◌, Option, some, length, take, drop, replicate, length-take_le,
  take-append_le, bit_and, ltb,
}
use lavender.Cipher.Des.Stream.{to_bytes, ◌>>=◌}
use lavender.Cipher.Des.Stream.Blocks.{bytes_of}
use lavender.Cipher.Des.Stream.Encrypt.{cbc_encrypt, text_of}
use lavender.Enc.{tdes, EncCipher, State, verify, complete, Status, success, continue, EncContext}
use lavender.Enc.Keys.{enc_load_key}
use lavender.Enc.Content.{Platform, key_size, enc_access_content}
use lavender.Enc.Content.Opens.{schedule}
use lavender.Enc.Content.Opened.{SameContent}
use lavender.Enc.Caller.{caller_initialize}
use lavender.Enc.Caller.Laws.{hex}
use lavender.Enc.Session.{handle_state, Wizard, enc_handle}
use lavender.Enc.Session.Ready.{IsReady}
use lavender.Enc.Session.Keyed.{FillsBuffer}
use lavender.Enc.Session.Unsaved.{enc_handle-unsaved}
use lavender.Sld.Runner.Sealed.{
  IsSealed, sealed_context, calling, sld_handle-again, sld_handle-enter, handle_prepare-decode,
}
use lavender.Sld.Entry.{call, script_call}
use lavender.Sld.Entry.Call.{ScriptCall}
use lavender.Sld.Runner.State.{
  load, Script, prepare, enter, decode, SldContext, Shared, again, Player,
}
use lavender.Sld.Runner.Calls.{
  sld_create_context, name_of, data_of, with_content_of, started, handle_status, handle_decode,
  handle_script_call,
}
use lavender.Sld.Runner.{machine}
use lavender.Sld.Runner.Steps.{GoesOn, tick, steps, steps-suc}
use lavender.Enc.Session.Scripted.{HasCaller, enc_handle-cbc_encrypt}

-- The provider of the caller stands first in `PROVIDER`, and asks the user for nothing.
pub record HasCallerKeys {W : Type 0} (p : Platform W) : Type 0 where
  pub caller : HasCaller p
  pub starts :
      (enc : EncContext) (w : W)
      → (p.providers 0).initialize_key enc w ≡ (caller_initialize, enc, w)

data_of-short : (c : ScriptCall) → length c.call_data < 40 → data_of c ≡ c.call_data ++ 0 ∷ []
unfolding data_of
data_of-short c short = let test : ltb (length c.call_data) 40 ≡ true = ground arith in rw test refl

module _ {W : Type 0} (p : Platform W) (z : Wizard W) (c : ScriptCall) (script : Script)
    (first second iv : ℕ) (ps : List ℕ) (q : ℕ) (keys : HasCallerKeys p) (ok : FillsBuffer p.keys)
    (memory : p.memory ≡ true) (is_sealed : IsSealed c script first second iv ps q) where
  sealed_content : length (take script.script_size script.script_data) ≡ script.script_size
  sealed_content = length-take_le script.script_size script.script_data is_sealed.fits

  sealed-IsReady : IsReady (sealed_context c script)
  sealed-IsReady = record {
    bytes = is_sealed.bytes;
    whole = sealed_content;
    below = is_sealed.below;
    key_room = refl;
  }

  hex_short : length (hex (to_bytes first ++ to_bytes second)) < 40
  unfolding to_bytes
  hex_short = omega arith

  -- The step that verifies and decrypts.
  opened_by :
      (begun : EncContext) (w : W)
      → begun.state ≡ verify
      → SameContent (sealed_context c script) begun
      → (opened : EncContext) × (w' : W) × (enc_handle p z begun w ≡ some (continue, opened, w'))
        × (opened.state ≡ complete)
        × (take opened.size opened.content ≡ text_of ps q)
        × (opened.size ≡ length (text_of ps q))
  opened_by begun w at same =
      enc_handle-cbc_encrypt p z begun w (0 ∷ []) first second iv ps q keys.caller memory at
        same.cipher (ap (λ (n : ℕ). bit_and n 0xFF) same.provider) same.key_room is_sealed.first_ok
        is_sealed.second_ok
        (same.parameter
          ∙ data_of-short c (let short = hex_short in rw is_sealed.given short)
          ∙ ap (λ (t : Bytes). t ++ 0 ∷ []) is_sealed.given)
        is_sealed.blocks is_sealed.pad
        (same.content
          ∙ is_sealed.made
          ∙ ap
              (λ (k : EncCipher).
                bytes_of
                  (iv ∷ cbc_encrypt (schedule k first second) (key_size k) iv (ps ++ q ∷ [])))
              (sym same.cipher))
        (ap length same.content ∙ sealed_content ∙ sym same.size)
        (omega (arith, same.size, is_sealed.below)) (same.crc32 ∙ is_sealed.sum)

  finished :
      (opened : EncContext) (w : W)
      → opened.state ≡ complete
      → enc_handle p z opened w ≡ some (success 0, opened, p.encui_exit w)
  unfolding enc_handle handle_state
  finished opened w at = ap (λ (s : State). handle_state p z s opened w) at

long_enough : (n : ℕ) (xs : Bytes) → length (take n xs) ≡ n → n ≤ length xs
long_enough zero xs h = omega arith
long_enough (suc n) [] h = absurd (omega arith)
long_enough (suc n) (x ∷ xs) h = let rest = long_enough n xs (omega arith) in omega arith

module _ {W : Type 0} (p : Player W) (z : Wizard W) (c : ScriptCall) (ctx : SldContext)
    (script : Script) where
  handle_decode-goes :
      (enc enc' : EncContext) (s : Shared W) (w : W)
      → enc_handle p.enc z enc s.world ≡ some (continue, enc', w)
      → handle_script_call p z c (decode script enc) (calling ctx (decode script enc)) s
        ≡ some (again, calling ctx (decode script enc'), record s { world = w })
  unfolding handle_script_call handle_decode handle_status
  handle_decode-goes enc enc' s w run =
      ap
        (λ (o : Option (Status × EncContext × W)).
          o >>= (λ r. some (handle_status p z script r (calling ctx (decode script enc)) s)))
        run

  handle_decode-ends :
      (enc enc' : EncContext) (s : Shared W) (w : W)
      → enc_handle p.enc z enc s.world ≡ some (success 0, enc', w)
      → handle_script_call p z c (decode script enc) (calling ctx (decode script enc)) s
        ≡ some (again, calling ctx (enter (with_content_of script enc')), record s { world = w })
  unfolding handle_script_call handle_decode handle_status
  handle_decode-ends enc enc' s w run =
      ap
        (λ (o : Option (Status × EncContext × W)).
          o >>= (λ r. some (handle_status p z script r (calling ctx (decode script enc)) s)))
        run

-- A line that calls a triple DES script and spells its two keys is carried out in five steps of `sld_handle`, whatever the
-- state of the rest: the called script runs from its start over the context of the caller, which loads its next line then,
-- and its bytes and its size are those of the text that was encrypted. It holds while the platform does not ask to quit,
-- where the file opens and is not found to be decrypted already, no key is saved for it, and `malloc` gives memory.
pub sld_handle-cbc_encrypt :
    {W : Type 0} (p : Player W) (z : Wizard W) (c : ScriptCall) (ctx : SldContext)
    (parents : List SldContext) (script : Script) (first second iv : ℕ) (ps : List ℕ) (q : ℕ)
    (s : Shared W)
    → HasCallerKeys p.enc
    → FillsBuffer p.enc.keys
    → p.enc.memory ≡ true
    → ((s : Shared W) → GoesOn p s)
    → ctx.entry.sld_type ≡ call
    → ctx.entry.content ≡ script_call c
    → IsSealed c script first second iv ps q
    → (sld_create_context p (name_of c) true (tick p s).world).0 ≡ some script
    → ((w : W) → (enc_load_key p.enc.keys w c.crc32 (replicate 16 0)).0 ≡ false)
    → enc_access_content tdes 0
        (data_of c)
        (take script.script_size script.script_data)
        script.script_size
        c.crc32
      ≡ some (continue, sealed_context c script)
    → (opened : Script) × (s' : Shared W) × (steps p z 5 (machine (calling ctx prepare) parents s)
        ≡ some (
            machine
              (started opened)
              (record ctx { state = load; call_state = prepare } ∷ parents)
              s'))
      × (take opened.script_size opened.script_data ≡ text_of ps q)
      × (opened.script_size ≡ length (text_of ps q))
unfolding steps
sld_handle-cbc_encrypt p z c ctx parents script first second iv ps q s keys ok memory quiet kind
      content is_sealed there unsaved locked =
    let s1 = record (tick p s) {
      world = (sld_create_context p (name_of c) true (tick p s).world).1;
      accumulator = 0;
    } in
    let enc = sealed_context c script in
    let s2 = tick p s1 in
    let (begun, run2, at, same) =
      enc_handle-unsaved p.enc z enc s2.world ok
        (sealed-IsReady p.enc z c script first second iv ps q keys ok memory is_sealed) refl refl
        keys.starts (unsaved s2.world) in
    let (opened, w3, run3, complete_now, text, size) =
      opened_by p.enc z c script first second iv ps q keys ok memory is_sealed begun
        (tick p s2).world at same in
    let s3 = record (tick p s2) { world = w3 } in
    let run4 =
      finished p.enc z c script first second iv ps q keys ok memory is_sealed opened
        (tick p s3).world complete_now in
    let s4 = record (tick p s3) { world = p.enc.encui_exit (tick p s3).world } in
    let inside : opened.size ≤ length opened.content =
      long_enough opened.size opened.content (ap length text ∙ sym size) in
    (
      with_content_of script opened,
      tick p s4,
      steps-suc p z 4 (machine (calling ctx prepare) parents s)
            (machine (calling ctx (decode script enc)) parents s1)
            (sld_handle-again p z c parents ctx kind content prepare (decode script enc) s s1
              (quiet s)
              (handle_prepare-decode p z c parents ctx kind content script (tick p s)
                is_sealed.method is_sealed.parameter there locked))
          ∙ steps-suc p z 3 (machine (calling ctx (decode script enc)) parents s1)
              (machine (calling ctx (decode script begun)) parents s2)
              (sld_handle-again p z c parents ctx kind content (decode script enc)
                (decode script begun) s1 s2 (quiet s1)
                (handle_decode-goes p z c ctx script enc begun s2 s2.world run2))
          ∙ steps-suc p z 2 (machine (calling ctx (decode script begun)) parents s2)
              (machine (calling ctx (decode script opened)) parents s3)
              (sld_handle-again p z c parents ctx kind content (decode script begun)
                (decode script opened) s2 s3 (quiet s2)
                (handle_decode-goes p z c ctx script begun opened (tick p s2) w3 run3))
          ∙ steps-suc p z 1 (machine (calling ctx (decode script opened)) parents s3)
              (machine (calling ctx (enter (with_content_of script opened))) parents s4)
              (sld_handle-again p z c parents ctx kind content (decode script opened)
                (enter (with_content_of script opened)) s3 s4 (quiet s3)
                (handle_decode-ends p z c ctx script opened opened (tick p s3)
                  (p.enc.encui_exit (tick p s3).world) run4))
          ∙ steps-suc p z 0
              (machine (calling ctx (enter (with_content_of script opened))) parents s4)
              (machine (started (with_content_of script opened))
                (record ctx { state = load; call_state = prepare } ∷ parents) (tick p s4))
              (sld_handle-enter p z c parents ctx kind content (with_content_of script opened) s4
                (quiet s4)),
      take-append_le opened.size opened.content (drop script.script_size script.script_data) inside
          ∙ text,
      size,
    )
