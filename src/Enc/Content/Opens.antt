-- ===== src/Enc/Content/Opens.antt =====
-- The right key opens DES and triple DES content.
use mathlib.Core.List.{append-nil}
use lavender.Base.{ℕ, ◌+◌, ◌-◌, ◌*◌, ◌%◌, ◌^◌, ◌≤◌, ◌<◌, ◌≡◌, refl, ap, sym, ◌∙◌, Bool, true, false}
use lavender.Base.{Bytes, List, [], ◌∷◌, ◌++◌, some, All, arith, ltb, ◌==◌, ◌⊎◌, inl, inr}
use lavender.Base.{length, take, drop, ==_iff, bit_and}
use lavender.Bits.Fields.{bit_and_mask}
use lavender.Zip.Crc.{calculate_crc}
use lavender.Cipher.Stream.{Stream, Context}
use lavender.Cipher.Des.{generate_subkeys}
use lavender.Cipher.Des.Stream.{
  from_bytes, to_bytes, des_allocate, des_verify, des_decrypt, des_free,
}
use lavender.Cipher.Des.Stream.Blocks.{IsBlock, bytes_of, from_bytes-to_bytes, drop-to_bytes}
use lavender.Cipher.Des.Stream.Plain.{padding}
use lavender.Cipher.Des.Stream.At.{length-plain_text}
use lavender.Cipher.Des.Stream.Decrypt.{des_decrypt-plain_text}
use lavender.Cipher.Des.Stream.Verify.{des_verify-checksum}
use lavender.Cipher.Des.Stream.Encrypt.{cbc_encrypt, text_of, cbc_encrypt-IsSealed}
use lavender.Cipher.InPlace.DesLaws.{des_decrypt_in_place-des_decrypt}
use lavender.Enc.{
  EncCipher, xor, des, tdes, EncStream, des_impl, impl_of, success, EncContext, enc_prepare,
  enc_free, enc_verify, enc_decrypt, allocate,
}
use lavender.Enc.Content.{Platform, key_size, use_key}
use lavender.Enc.Content.Laws.{use_key-opens}
use lavender.Enc.Content.Streams.{Fits, des_free-data_length}

-- The subkeys of two halves of a key, of which DES takes the first.
abbrev pub schedule : EncCipher → ℕ → ℕ → List ℕ
schedule tdes first second = generate_subkeys first ++ generate_subkeys second
schedule _ first second = generate_subkeys first ++ []

-- The ciphers in blocks.
abbrev pub IsDes : EncCipher → Type 0
IsDes cipher = (cipher ≡ des) ⊎ (cipher ≡ tdes)

module _ (content : Bytes) (size first second : ℕ) (first_ok : first < 2 ^ 64)
    (second_ok : second < 2 ^ 64) where
  keyed : EncCipher → Stream
  keyed cipher = record {
    content = content;
    data_length = size;
    key = to_bytes first ++ to_bytes second;
    key_length = key_size cipher;
    context = some (record { subkeys = schedule cipher first second; at_pos = 0; at_pt = 0 });
  }

  first_loaded : from_bytes (to_bytes first ++ to_bytes second) ≡ some first
  first_loaded = from_bytes-to_bytes first (to_bytes second) first_ok

  second_loaded : from_bytes (drop 8 (to_bytes first ++ to_bytes second)) ≡ some second
  second_loaded =
      ap from_bytes (drop-to_bytes first (to_bytes second) ∙ sym (append-nil (to_bytes second)))
      ∙ from_bytes-to_bytes second [] second_ok

  enc_prepare-keyed :
      (cipher : EncCipher) (e : EncStream) (k : ℕ)
      → IsDes cipher
      → size ≡ 8 * (2 + k)
      → enc_prepare true e cipher content size (to_bytes first ++ to_bytes second) (key_size cipher)
        ≡ some (record { stream = keyed cipher; impl = some des_impl }, true)
  unfolding enc_prepare allocate des_allocate keyed
  enc_prepare-keyed cipher e k is blocks =
      let mask : bit_and size 7 ≡ 0 = bit_and_mask 3 size ∙ omega arith in
      let whole : (bit_and size 7 == 0) ≡ true = (==_iff (bit_and size 7) 0).1 mask in
      let long : ltb size 16 ≡ false = ground arith in
      elim is [
        | inl one ↦ rw (one, whole, long, first_loaded) refl
        | inr two ↦ rw (two, whole, long, first_loaded, second_loaded) refl
      ]

Fits-IsDes :
    (cipher : EncCipher) (n size : ℕ) → IsDes cipher → n + 8 ≤ size → Fits (impl_of cipher) n size
Fits-IsDes xor n size (inl e) h = absurd (xor≢des e)
  where
    xor≢des : ¬ (xor ≡ des)
    xor≢des e = cc
Fits-IsDes xor n size (inr e) h = cc
Fits-IsDes des n size is h = h
Fits-IsDes tdes n size is h = h

-- Content that CBC encryption made of blocks is opened by the key that it was made with: `_decrypt_content`
-- with that key at hand, and the checksum of the text, gives zero, the content starts with the text, and the
-- size is that of the text. It holds for DES and triple DES, every initial vector and every padding up to
-- eight bytes, where `malloc` gives memory.
pub use_key-cbc_encrypt :
    {W : Type 0} (p : Platform W) (load_key : Bool) (enc : EncContext) (w : W) (first second iv : ℕ)
    (ps : List ℕ) (q : ℕ)
    → p.memory ≡ true
    → IsDes enc.cipher
    → first < 2 ^ 64
    → second < 2 ^ 64
    → enc.key ≡ to_bytes first ++ to_bytes second
    → All IsBlock (iv ∷ ps ++ q ∷ [])
    → q % 256 ≤ 8
    → enc.content
      ≡ bytes_of (
          iv
          ∷ cbc_encrypt (schedule enc.cipher first second) (key_size enc.cipher) iv (ps ++ q ∷ []))
    → length enc.content ≡ enc.size
    → enc.size < 2 ^ 31
    → enc.crc32 ≡ calculate_crc (text_of ps q)
    → (opened : EncContext) × (w' : W) × (use_key p load_key enc w ≡ some (success 0, opened, w'))
      × (take opened.size opened.content ≡ text_of ps q)
      × (opened.size ≡ length (text_of ps q))
unfolding enc_verify enc_decrypt enc_free keyed
use_key-cbc_encrypt {W} p load_key enc w first second iv ps q memory is first_ok second_ok key
      blocks pad made whole below sum =
    let s = keyed enc.content enc.size first second first_ok second_ok enc.cipher in
    let c : Context = record {
      subkeys = schedule enc.cipher first second;
      at_pos = 0;
      at_pt = 0;
    } in
    let (init, final, sealed, count, last, text) =
      cbc_encrypt-IsSealed s c iv ps q blocks refl made (sym whole) in
    let fits : padding iv init final c s ≤ 8 = rw last pad in
    let out = text_of ps q in
    let size : length out ≡ 8 * (1 + length init) - padding iv init final c s =
      ap length (sym text) ∙ length-plain_text sealed fits in
    let checked : des_verify s enc.crc32 ≡ some true =
      des_verify-checksum sealed refl enc.crc32 fits
      ∙ ap some (rw text ((==_iff enc.crc32 (calculate_crc out)).1 sum)) in
    let s' = record s { data_length = 8 * (1 + length init) - padding iv init final c s } in
    let run : des_decrypt s ≡ some (s', true, out) =
      des_decrypt-plain_text sealed fits ∙ rw text refl in
    let decrypted = des_decrypt_in_place-des_decrypt s s' true run in
    let d : EncStream = record { stream = s'; impl = some des_impl } in
    let prepared =
      enc_prepare-keyed enc.content enc.size first second first_ok second_ok enc.cipher
        enc.enc_stream (length init) is sealed.length_is in
    let run' : enc_prepare p.memory enc.enc_stream enc.cipher enc.content enc.size enc.key
          (key_size enc.cipher)
        ≡ some (record { stream = s; impl = some des_impl }, true) =
      rw (memory, key) prepared in
    let (opened, w', opens, ends, starts, facts) =
      use_key-opens p load_key enc w (record { stream = s; impl = some des_impl }) d
        (record d { stream = (des_free s').0 }, (des_free s').1) out whole below run' checked
        (rw decrypted refl) refl (des_free-data_length s' ∙ sym size)
        (Fits-IsDes enc.cipher (length out) enc.size is (omega (arith, size, sealed.length_is)))
        (sym sum) in
    (opened, w', opens, starts, ends)
