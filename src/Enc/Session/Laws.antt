-- ===== src/Enc/Session/Laws.antt =====
-- A session from its first step to opened content.
use lavender.Base.{◌≡◌, refl, ap, ◌∙◌, true, false}
use lavender.Base.{some, ◌==◌, ◌⊎◌, inl, inr, Bool-cases}
use lavender.Base.{bit_and}
use lavender.Enc.{
  State, initialize, read, verify, complete, Status, failure, Errno, EncContext, continue,
}
use lavender.Enc.Content.{Platform, enc_prov}
use lavender.Enc.Content.Opened.{SameContent, Opened}
use lavender.Enc.Session.{
  Wizard, require_success, begin, handle_loaded, handle_verified, handle_state, enc_handle,
}
use lavender.Enc.Session.Ready.{
  IsReady, IsPlatform, Opened-state, SameContent-state, same_trans, Status-cases,
}
use lavender.Enc.Session.Keyed.{Decrypted, decrypt_content-Decrypted}

-- What a step of the session leaves: opened content, a question to the user or to the provider with the
-- content as it was, or an error with the content as it was.
abbrev pub Handled : {W : Type 0} → EncContext → Status × EncContext × W → Type 0
Handled enc r =
    ((r.0 ≡ continue) × (r.1.state ≡ complete) × Opened enc r.1)
    ⊎ ((r.0 ≡ continue) × ((r.1.state ≡ read) ⊎ (r.1.state ≡ verify)) × SameContent enc r.1)
    ⊎ ((e : Errno) × (r.0 ≡ failure e) × SameContent enc r.1)

module _ {W : Type 0} (p : Platform W) (ok : IsPlatform p) (z : Wizard W) where
  handle_loaded-Handled :
      (enc : EncContext) (r : Status × EncContext × W)
      → Decrypted enc r
      → Handled enc (handle_loaded p r)
  unfolding handle_loaded begin require_success
  handle_loaded-Handled enc r (inl (e, facts)) =
      rw (e, handle_loaded) (inl (refl, refl, Opened-state complete facts))
  handle_loaded-Handled enc r (inr (f, e, same)) =
      let same' = same_trans same (ok.initializes (bit_and r.1.provider 0xFF) r.1 r.2) in
      elim (Status-cases ((enc_prov p r.1).initialize_key r.1 r.2).0) [
        | inl (n, e') ↦ elim (Bool-cases (n == 0)) [
          | inl b ↦
              rw (e, handle_loaded, e', require_success, b)
                (inr (inl (refl, inr refl, SameContent-state verify same')))
          | inr b ↦
              rw (e, handle_loaded, e', require_success, b)
                (inr (inl (refl, inl refl, SameContent-state read same')))
        ]
        | inr (f', e') ↦ rw (e, handle_loaded, e', require_success) (inr (inr (f', refl, same')))
      ]

  handle_verified-Handled :
      (enc : EncContext) (r : Status × EncContext × W)
      → Decrypted enc r
      → Handled enc (handle_verified p r)
  unfolding handle_verified require_success
  handle_verified-Handled enc r (inl (e, facts)) =
      rw (e, handle_verified) (inl (refl, refl, Opened-state complete facts))
  handle_verified-Handled enc r (inr (f, e, same)) =
      rw (e, handle_verified) (inr (inr (f, refl, same)))

  -- A step of `enc_handle` that decrypts ends, and reads and writes nothing outside its buffers: the content is
  -- opened and the session complete; or the session goes on with the content as it was; or it gives an error
  -- and the content is as it was. It is so from ENCS_INITIALIZE, where the saved key is tried, and from
  -- ENCS_VERIFY, where the provider makes the key.
  pub enc_handle-Handled :
      (enc : EncContext) (w : W)
      → IsReady enc
      → (enc.state ≡ initialize) ⊎ (enc.state ≡ verify)
      → (r : Status × EncContext × W) × (enc_handle p z enc w ≡ some r) × Handled enc r
  unfolding enc_handle handle_state
  enc_handle-Handled enc w ready (inl e) =
      let (r, run, outcome) = decrypt_content-Decrypted p ok enc true w ready in
      let step : handle_state p z initialize enc w ≡ some (handle_loaded p r) = rw run refl in
      (
        handle_loaded p r,
        ap (λ (s : State). handle_state p z s enc w) e ∙ step,
        handle_loaded-Handled enc r outcome,
      )
  enc_handle-Handled enc w ready (inr e) =
      let (r, run, outcome) = decrypt_content-Decrypted p ok enc false w ready in
      let step : handle_state p z verify enc w ≡ some (handle_verified p r) = rw run refl in
      (
        handle_verified p r,
        ap (λ (s : State). handle_state p z s enc w) e ∙ step,
        handle_verified-Handled enc r outcome,
      )
