-- ===== src/Enc/Session/Unsaved.antt =====
-- `enc_handle` of player/src/enc/enc.c where no key is saved, with the key of the caller.
use lavender.Base.{ℕ, ◌≡◌, refl, ap, ◌∙◌, Bool, if◌then◌else◌, true, false}
use lavender.Base.{Option, none, some, take, bit_and}
use lavender.Enc.{State, initialize, verify, Status, failure, continue, enoent, EncContext}
use lavender.Enc.Keys.{enc_load_key}
use lavender.Enc.Content.{Platform, enc_prov, key_size, obtain_key, decrypt_content, use_key}
use lavender.Enc.Content.Opened.{SameContent}
use lavender.Enc.Caller.{caller_initialize}
use lavender.Enc.Session.{Wizard, enc_handle, handle_state, handle_loaded, require_success, begin}
use lavender.Enc.Session.Ready.{IsReady, SameContent-state}
use lavender.Enc.Session.Keyed.{FillsBuffer, obtain_key-loaded}

module _ {W : Type 0} (p : Platform W) (z : Wizard W) where
  -- From ENCS_INITIALIZE, without a saved key, the provider of the caller goes on to ENCS_VERIFY.
  pub enc_handle-unsaved :
      (enc : EncContext) (w : W)
      → FillsBuffer p.keys
      → IsReady enc
      → enc.state ≡ initialize
      → bit_and enc.provider 0xFF ≡ 0
      → ((enc : EncContext) (w : W)
          → (p.providers 0).initialize_key enc w ≡ (caller_initialize, enc, w))
      → (enc_load_key p.keys w enc.crc32 (take (key_size enc.cipher) enc.key)).0 ≡ false
      → (enc' : EncContext) × (enc_handle p z enc w ≡ some (continue, enc', w))
        × (enc'.state ≡ verify)
        × SameContent enc enc'
  unfolding enc_handle handle_state handle_loaded require_success begin decrypt_content obtain_key
  enc_handle-unsaved enc w ok ready at is starts unsaved =
      let same = obtain_key-loaded p ok enc w ready in
      let tried = (obtain_key p true enc w).1 in
      let key : obtain_key p true enc w ≡ (some (failure enoent), tried, w) =
        ap (λ (b : Bool). (if b then none else some (failure enoent), tried, w)) unsaved in
      let decrypted : decrypt_content p enc true w ≡ some (failure enoent, tried, w) =
        ap used key in
      let begun : require_success p ((enc_prov p tried).initialize_key tried w) (begin p)
          ≡ (continue, record tried { state = verify }, w) =
        ap (λ (n : ℕ). require_success p ((p.providers n).initialize_key tried w) (begin p)) is
        ∙ ap (λ (r : Status × EncContext × W). require_success p r (begin p)) (starts tried w) in
      let step : handle_state p z initialize enc w
          ≡ some (continue, record tried { state = verify }, w) =
        rw decrypted (ap some begun) in
      (
        record tried { state = verify },
        ap (λ (s : State). handle_state p z s enc w) at ∙ step,
        refl,
        SameContent-state verify same,
      )
    where
      used : Option Status × EncContext × W → Option (Status × EncContext × W)
      used r = elim r.0 [ none ↦ use_key p true r.1 r.2 | some s ↦ some (s, r.1, r.2) ]
