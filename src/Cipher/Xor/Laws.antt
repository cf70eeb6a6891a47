-- ===== src/Cipher/Xor/Laws.antt =====
-- What the XOR cipher does with a key and data of the stated lengths.
use lavender.Base.{ℕ, zero, suc, ◌+◌, ◌%◌, ◌≤◌, ◌<◌, Bytes, [], ◌∷◌, some, ◌≡◌}
use lavender.Base.{refl, ap, sym, ◌∙◌, arith, length, get_elem?, get_or, bit_xor, ◌==◌}
use lavender.Bits.Xor.{bit_xor_cancel}
use lavender.Cipher.Stream.{Stream}
use lavender.Cipher.Xor.{remainder, xor_byte, xor_at, xor_loop, xor_decrypt, xor_verify}
use lavender.Zip.Crc.{calculate_crc}
use lavender.Zip.Crc.Indirect.{calculate_crc_indirect-calculate_crc}

-- The lengths name bytes that are there, and the key is not empty.
pub record IsReadable (stream : Stream) : Type 0 where
  pub has_data : stream.data_length ≤ length stream.content
  pub has_key : 0 < stream.key_length
  pub key_fits : stream.key_length ≤ length stream.key

-- Byte `i` of the plain text.
abbrev pub plain : Stream → ℕ → ℕ
plain stream i = bit_xor (get_or stream.content i 0) (get_or stream.key (i % stream.key_length) 0)

abbrev plain_from : Stream → ℕ → ℕ → Bytes
plain_from stream zero i = []
plain_from stream (suc left) i = plain stream i ∷ plain_from stream left (i + 1)

abbrev pub plain_text : Stream → Bytes
plain_text stream = plain_from stream stream.data_length 0

get_elem?-get_or : (xs : Bytes) (i : ℕ) → i < length xs → get_elem? xs i ≡ some (get_or xs i 0)
get_elem?-get_or [] i h = absurd (omega arith)
get_elem?-get_or (x ∷ xs) zero h = refl
get_elem?-get_or (x ∷ xs) (suc i) h = get_elem?-get_or xs i (omega arith)

remainder_lem : (i n : ℕ) → 0 < n → remainder i n ≡ some (i % n)
unfolding remainder
remainder_lem i zero h = absurd (omega arith)
remainder_lem i (suc n) h = refl

mod_below : (i n : ℕ) → 0 < n → i % n < n
mod_below i n h = omega arith

module _ (stream : Stream) (ok : IsReadable stream) where
  xor_byte-plain : (i : ℕ) → i < stream.data_length → xor_byte stream i ≡ some (plain stream i)
  unfolding xor_byte
  xor_byte-plain i h =
      let j = i % stream.key_length in
      let below : j < length stream.key =
        omega (arith, mod_below i stream.key_length ok.has_key, ok.key_fits) in
      ground (
        arith,
        get_elem?-get_or stream.content i,
        remainder_lem i stream.key_length,
        get_elem?-get_or stream.key j,
        ok.has_data,
        ok.has_key,
      )

  xor_loop-plain :
      (left i : ℕ)
      → i + left ≤ stream.data_length
      → xor_loop stream left i ≡ some (plain_from stream left i)
  unfolding xor_loop
  xor_loop-plain zero i h = refl
  xor_loop-plain (suc left) i h =
      rw (xor_byte-plain i (omega arith), xor_loop-plain left (i + 1) (omega arith)) refl

  length-plain_from : (left i : ℕ) → length (plain_from stream left i) ≡ left
  length-plain_from zero i = refl
  length-plain_from (suc left) i = ap suc (length-plain_from left (i + 1))

  get_or-plain_from :
      (left i j : ℕ) → j < left → get_or (plain_from stream left i) j 0 ≡ plain stream (i + j)
  get_or-plain_from zero i j h = absurd (omega arith)
  get_or-plain_from (suc left) i zero h = ap (plain stream) (omega arith)
  get_or-plain_from (suc left) i (suc j) h =
      get_or-plain_from left (i + 1) j (omega arith) ∙ ap (plain stream) (omega arith)

  -- `_xor_decrypt` reads nothing behind its buffers and writes the plain text.
  pub xor_decrypt-plain_text : xor_decrypt stream ≡ some (plain_text stream)
  unfolding xor_decrypt
  xor_decrypt-plain_text = xor_loop-plain stream.data_length 0 (omega arith)

  xor_at-plain :
      (t : Stream) (j : ℕ)
      → t ≡ stream
      → j < length (plain_text stream)
      → (s' : Stream) × (xor_at t j ≡ some (get_or (plain_text stream) j 0, s')) × (s' ≡ stream)
  unfolding xor_at
  xor_at-plain t j e h =
      let below : j < stream.data_length = omega (arith, length-plain_from stream.data_length 0) in
      let byte : plain stream j ≡ get_or (plain_text stream) j 0 =
        ap (plain stream) (omega arith) ∙ sym (get_or-plain_from stream.data_length 0 j below) in
      (stream, rw (e, xor_byte-plain j below, byte) refl, refl)

  -- `_xor_verify` accepts exactly the checksum of what `_xor_decrypt` writes.
  pub xor_verify-xor_decrypt :
      (crc : ℕ)
      → (out : Bytes) × (xor_decrypt stream ≡ some out)
        × (xor_verify stream crc ≡ some (crc == calculate_crc out))
  unfolding xor_verify
  xor_verify-xor_decrypt crc =
      let (s', run, same) =
        calculate_crc_indirect-calculate_crc (λ t. t ≡ stream) xor_at (plain_text stream) stream
          refl xor_at-plain in
      (
        plain_text stream,
        xor_decrypt-plain_text,
        rw (rw (length-plain_from stream.data_length 0) at run) refl,
      )

  plain_text-IsReadable : IsReadable (record stream { content = plain_text stream })
  plain_text-IsReadable = record {
    has_data = omega (arith, length-plain_from stream.data_length 0);
    has_key = ok.has_key;
    key_fits = ok.key_fits;
  }

-- XOR is its own inverse: what `_xor_decrypt` writes, decrypted again with the same key, is the data
-- that it was made from, byte for byte.
pub xor_decrypt_twice :
    (stream : Stream)
    → IsReadable stream
    → (out back : Bytes) × (xor_decrypt stream ≡ some out)
      × (xor_decrypt (record stream { content = out }) ≡ some back)
      × (length back ≡ stream.data_length)
      × ((i : ℕ) → i < stream.data_length → get_or back i 0 ≡ get_or stream.content i 0)
xor_decrypt_twice stream ok =
    let n = stream.data_length in
    let again = record stream { content = plain_text stream } in
    (
      plain_text stream,
      plain_text again,
      xor_decrypt-plain_text stream ok,
      xor_decrypt-plain_text again (plain_text-IsReadable stream ok),
      length-plain_from again (plain_text-IsReadable stream ok) n 0,
      λ i h.
          get_or-plain_from again (plain_text-IsReadable stream ok) n 0 i h
          ∙ ap (plain again) (omega arith)
          ∙ ap (λ (t : ℕ). bit_xor t (get_or stream.key (i % stream.key_length) 0))
              (get_or-plain_from stream ok n 0 i h ∙ ap (plain stream) (omega arith))
          ∙ bit_xor_cancel (get_or stream.content i 0)
              (get_or stream.key (i % stream.key_length) 0),
    )
