-- ===== src/Enc/Session/Keyed.antt =====
-- `_decrypt_content` with the saved key and with that of the provider.
use lavender.Base.{ℕ, ◌≡◌, refl, ◌∙◌, Bool, true, false}
use lavender.Base.{Bytes, some, arith, ◌==◌, ◌⊎◌, inl, inr, Bool-cases, Option-cases}
use lavender.Base.{length, length-append, take, drop, length-take_le, bit_and}
use lavender.Enc.{Status, success, failure, Errno, enoent, einval, eacces, EncContext}
use lavender.Enc.Keys.{KeyStore, enc_load_key, key_name}
use lavender.Enc.Keys.RoundTrip.{length-bind_key}
use lavender.Enc.Content.{Platform, enc_prov, key_size, obtain_key, decrypt_content}
use lavender.Base.{length-drop}
use lavender.Enc.Content.Laws.{use_key-Opened}
use lavender.Enc.Content.Opened.{SameContent, Opened}
use lavender.Enc.Session.Ready.{
  IsReady, IsPlatform, IsReady-SameContent, Opened-SameContent, same_trans, Status-cases,
  key_size-fits,
}

-- The content is opened, or an error left it as it was.
abbrev pub Decrypted : {W : Type 0} → EncContext → Status × EncContext × W → Type 0
Decrypted enc r =
    ((r.0 ≡ success 0) × Opened enc r.1) ⊎ ((e : Errno) × (r.0 ≡ failure e) × SameContent enc r.1)

-- What the session relies on of the store: it fills the buffer that it is given.
abbrev pub FillsBuffer : {W : Type 0} → KeyStore W → Type 0
FillsBuffer {W} keys =
    (w : W) (name buffer : Bytes) → length (keys.load_state w name buffer).1 ≡ length buffer

module _ {W : Type 0} (p : Platform W) (fills : FillsBuffer p.keys) where
  length-enc_load_key :
      (w : W) (cid : ℕ) (buffer : Bytes)
      → length (enc_load_key p.keys w cid buffer).1 ≡ length buffer
  unfolding enc_load_key
  length-enc_load_key w cid buffer = elim (Option-cases (p.keys.machine_id w)) [
    | inl e ↦ rw (e, enc_load_key) refl
    | inr (mid, e) ↦
        let (loaded, after) = p.keys.load_state w (key_name cid) buffer in
        let size = fills w (key_name cid) buffer in
        elim (Bool-cases (length buffer == loaded)) [
          | inl same ↦ rw (e, enc_load_key, same) (length-bind_key mid 0 after ∙ size)
          | inr differ ↦ rw (e, enc_load_key, differ) size
        ]
  ]

  pub obtain_key-loaded :
      (enc : EncContext) (w : W) → IsReady enc → SameContent enc (obtain_key p true enc w).1
  unfolding obtain_key
  obtain_key-loaded enc w ready =
      let size = key_size enc.cipher in
      let loaded = enc_load_key p.keys w enc.crc32 (take size enc.key) in
      record {
        cipher = refl;
        provider = refl;
        parameter = refl;
        content = refl;
        size = refl;
        crc32 = refl;
        key_room = omega (
          arith,
          length-append loaded.1 (drop size enc.key),
          length-drop size enc.key,
          length-enc_load_key w enc.crc32 (take size enc.key),
          length-take_le size enc.key (omega (arith, key_size-fits enc.cipher, ready.key_room)),
          key_size-fits enc.cipher,
          ready.key_room,
        );
      }

module _ {W : Type 0} (p : Platform W) (ok : IsPlatform p) where
  obtain_key-SameContent :
      (load_key : Bool) (enc : EncContext) (w : W)
      → IsReady enc
      → SameContent enc (obtain_key p load_key enc w).1
  unfolding obtain_key
  obtain_key-SameContent true enc w ready = obtain_key-loaded p ok.load_size enc w ready
  obtain_key-SameContent false enc w ready =
      let same = ok.transforms (bit_and enc.provider 0xFF) enc w in
      elim (Status-cases ((enc_prov p enc).transform enc w).0) [
        | inl (n, e) ↦ rw (e, obtain_key) same
        | inr (f, e) ↦ rw (e, obtain_key) same
      ]

  obtain_key-failure :
      (load_key : Bool) (enc : EncContext) (w : W) (s : Status)
      → (obtain_key p load_key enc w).0 ≡ some s
      → (e : Errno) × (s ≡ failure e)
  unfolding obtain_key
  obtain_key-failure true enc w s h =
      elim (Bool-cases (enc_load_key p.keys w enc.crc32 (take (key_size enc.cipher) enc.key)).0) [
        | inl e ↦ absurd (ground arith)
        | inr e ↦ (enoent, ground arith)
      ]
  obtain_key-failure false enc w s h = elim (Status-cases ((enc_prov p enc).transform enc w).0) [
    | inl (n, e) ↦ absurd (ground arith)
    | inr (f, e) ↦ (f, ground arith)
  ]

  pub decrypt_content-Decrypted :
      (enc : EncContext) (load_key : Bool) (w : W)
      → IsReady enc
      → (r : Status × EncContext × W) × (decrypt_content p enc load_key w ≡ some r)
        × Decrypted enc r
  unfolding decrypt_content
  decrypt_content-Decrypted enc load_key w ready =
      let obtained = obtain_key p load_key enc w in
      let same = obtain_key-SameContent load_key enc w ready in
      let ready' = IsReady-SameContent ready same in
      elim (Option-cases obtained.0) [
        | inr (s, e) ↦
            let (f, why) = obtain_key-failure load_key enc w s e in
            ((s, obtained.1, obtained.2), rw (e, decrypt_content) refl, inr (f, why, same))
        | inl e ↦
            let (r, run, outcome) =
              use_key-Opened p load_key obtained.1 obtained.2 ready'.bytes ready'.whole ready'.below
                ready'.key_room in
            (
              r,
              rw (e, decrypt_content) run,
              elim outcome [
                | inl (why, kept) ↦ inr (elim why [
                  | inl f ↦ (einval, f, same_trans same kept)
                  | inr f ↦ (eacces, f, same_trans same kept)
                ])
                | inr (zero_status, facts) ↦ inl (zero_status, Opened-SameContent same facts)
              ],
            )
      ]
