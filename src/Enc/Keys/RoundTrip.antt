-- ===== src/Enc/Keys/RoundTrip.antt =====
-- A key that is saved is loaded again.
use lavender.Base.{ℕ, suc, ◌+◌, ◌%◌, ◌≡◌, refl, ap, ap₂, sym, ◌∙◌, true, Bytes, [], ◌∷◌}
use lavender.Base.{some, ◌==◌, length, get_or, arith, Option-cases, inl, inr, ==_iff}
use lavender.Bits.Xor.{bit_xor_cancel}
use lavender.Enc.Keys.{KeyStore, bind_key, key_name, enc_load_key, enc_save_key}

bind_key_twice :
    (mid : Bytes) (i : ℕ) (bytes : Bytes) → bind_key mid i (bind_key mid i bytes) ≡ bytes
unfolding bind_key
bind_key_twice mid i [] = refl
bind_key_twice mid i (b ∷ bytes) =
    ap₂ ◌∷◌ (bit_xor_cancel b (get_or mid (i % 16) 0)) (bind_key_twice mid (i + 1) bytes)

pub length-bind_key :
    (mid : Bytes) (i : ℕ) (bytes : Bytes) → length (bind_key mid i bytes) ≡ length bytes
unfolding bind_key
length-bind_key mid i [] = refl
length-bind_key mid i (b ∷ bytes) = ap suc (length-bind_key mid (i + 1) bytes)

-- What a store of states promises: a state that was saved is loaded by its name into a buffer of its
-- size, whole, and the machine stays the same.
pub record IsKeyStore {W : Type 0} (p : KeyStore W) : Type 0 where
  pub loads :
      (w w' : W) (name bytes buffer : Bytes)
      → p.save_state w name bytes ≡ (true, w')
      → length buffer ≡ length bytes
      → p.load_state w' name buffer ≡ (length bytes, bytes)
  pub same_machine :
      (w w' : W) (name bytes : Bytes)
      → p.save_state w name bytes ≡ (true, w')
      → p.machine_id w' ≡ p.machine_id w

save_key-state :
    {W : Type 0} (p : KeyStore W) (w w' : W) (cid : ℕ) (key : Bytes)
    → enc_save_key p w cid key ≡ (true, w')
    → (mid : Bytes) × (p.machine_id w ≡ some mid)
      × (p.save_state w (key_name cid) (bind_key mid 0 key) ≡ (true, w'))
unfolding enc_save_key
save_key-state p w w' cid key h = elim (Option-cases (p.machine_id w)) [
  | inl e ↦ absurd (ground arith)
  | inr (mid, e) ↦ (mid, e, ground arith)
]

-- A key that `enc_save_key` has saved is what `enc_load_key` loads for the same content.
pub enc_load_key-enc_save_key :
    {W : Type 0} (p : KeyStore W) (w w' : W) (cid : ℕ) (key buffer : Bytes)
    → IsKeyStore p
    → length buffer ≡ length key
    → enc_save_key p w cid key ≡ (true, w')
    → enc_load_key p w' cid buffer ≡ (true, key)
unfolding enc_load_key
enc_load_key-enc_save_key p w w' cid key buffer ok room h =
    let (mid, e, saved) = save_key-state p w w' cid key h in
    let machine : p.machine_id w' ≡ some mid =
      ok.same_machine w w' (key_name cid) (bind_key mid 0 key) saved ∙ e in
    let whole : length buffer ≡ length (bind_key mid 0 key) =
      room ∙ sym (length-bind_key mid 0 key) in
    let loaded = ok.loads w w' (key_name cid) (bind_key mid 0 key) buffer saved whole in
    let same : (length buffer == length (bind_key mid 0 key)) ≡ true =
      (==_iff (length buffer) (length (bind_key mid 0 key))).1 whole in
    rw (machine, enc_load_key, loaded, same, bind_key_twice) refl
