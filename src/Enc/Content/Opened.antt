-- ===== src/Enc/Content/Opened.antt =====
-- What `_decrypt_content` leaves of decrypted content, and that `enc_access_content` knows it.
use lavender.Base.{ℕ, ◌+◌, ◌^◌, ◌≤◌, ◌<◌, ◌≡◌, refl, ap, sym, ◌∙◌, true}
use lavender.Base.{Bytes, some, arith, ltb, ◌==◌}
use lavender.Base.{length, length-append, take, drop, ==_iff}
use lavender.Zip.Crc.{calculate_crc}
use lavender.Cipher.InPlace.DesLaws.{over}
use lavender.Enc.{EncCipher, xor, des, tdes, EncStream, impl_of, success, EncContext, complete}
use lavender.Enc.Content.{set_size, cleared, access, enc_access_content, has_padding}
use lavender.Enc.Content.Steps.{
  stored, write_pt_size-stored, read_pt_size-stored, take-stored, length-stored,
}
use lavender.Base.{take-append_le, take-all, length-drop}
use lavender.Enc.Content.Streams.{Fits}

-- Two contexts of the same content and the same parameters.
pub record SameContent (enc enc' : EncContext) : Type 0 where
  pub cipher : enc'.cipher ≡ enc.cipher
  pub provider : enc'.provider ≡ enc.provider
  pub parameter : enc'.parameter ≡ enc.parameter
  pub content : enc'.content ≡ enc.content
  pub size : enc'.size ≡ enc.size
  pub crc32 : enc'.crc32 ≡ enc.crc32
  pub key_room : length enc'.key ≡ length enc.key

-- The content of the second context is decrypted content of the first, and is known as such when it is
-- accessed again under its whole size.
pub record Opened (enc opened : EncContext) : Type 0 where
  pub checksum : calculate_crc (take opened.size opened.content) ≡ enc.crc32
  pub same_length : length opened.content ≡ length enc.content
  pub again : EncContext
  pub known :
      enc_access_content enc.cipher enc.provider enc.parameter opened.content enc.size enc.crc32
      ≡ some (success 0, again)
  pub same_size : again.size ≡ opened.size

take-over : (n : ℕ) (out content : Bytes) → n ≡ length out → take n (over out content) ≡ out
take-over n out content e =
    take-append_le n out (drop (length out) content) (omega arith) ∙ take-all n out (sym e)

length-over :
    (out content : Bytes) → length out ≤ length content → length (over out content) ≡ length content
length-over out content h =
    omega (arith, length-append out (drop (length out) content), length-drop (length out) content)

==_refl : (a b : ℕ) → a ≡ b → (a == b) ≡ true
==_refl a b e = (==_iff a b).1 e

module _ (enc : EncContext) (f : EncStream) (out : Bytes) (whole : length enc.content ≡ enc.size)
    (below : enc.size < 2 ^ 31) (size : f.stream.data_length ≡ length out)
    (same : calculate_crc out ≡ enc.crc32) where
  unpadded-Opened :
      enc.cipher ≡ xor
      → length out ≡ enc.size
      → (opened : EncContext) × (set_size enc f (over out enc.content) ≡ some opened)
        × (opened.size ≡ length out)
        × (take opened.size opened.content ≡ out)
        × Opened enc opened
  unfolding set_size enc_access_content access
  unpadded-Opened is fits =
      let opened = record enc { enc_stream = f; content = over out enc.content } in
      let sum : calculate_crc (take enc.size (over out enc.content)) ≡ enc.crc32 =
        ap calculate_crc (take-over enc.size out enc.content (sym fits)) ∙ same in
      (
        opened,
        rw is refl,
        sym fits,
        take-over enc.size out enc.content (sym fits),
        record {
          checksum = sum;
          same_length = length-over out enc.content (omega arith);
          again =
              record (cleared enc.cipher enc.provider enc.parameter (over out enc.content) enc.size
                enc.crc32) { state = complete };
          known =
              rw (is, ==_refl (calculate_crc (take enc.size (over out enc.content))) enc.crc32 sum)
                refl;
          same_size = refl;
        },
      )

  padded-Opened :
      has_padding enc.cipher ≡ true
      → length out + 8 ≤ enc.size
      → (opened : EncContext) × (set_size enc f (over out enc.content) ≡ some opened)
        × (opened.size ≡ length out)
        × (take opened.size opened.content ≡ out)
        × Opened enc opened
  unfolding set_size enc_access_content access
  padded-Opened is fits =
      let buffer = over out enc.content in
      let n = f.stream.data_length in
      let long : length buffer ≡ enc.size = length-over out enc.content (omega arith) ∙ whole in
      let room : n + 8 ≤ enc.size = omega arith in
      let small : n < 2 ^ 32 = omega arith in
      let after = stored buffer enc.size n long room small in
      let written = write_pt_size-stored buffer enc.size n long room small in
      let text : take n after ≡ out =
        take-stored buffer enc.size n long room small ∙ take-over n out enc.content size in
      let sum : calculate_crc (take n after) ≡ enc.crc32 = ap calculate_crc text ∙ same in
      let read = read_pt_size-stored buffer enc.size n long room small in
      let less : ltb n enc.size ≡ true = ground arith in
      let right = ==_refl (calculate_crc (take n after)) enc.crc32 sum in
      (
        record enc { enc_stream = f; content = after; size = n },
        rw (is, written) refl,
        size,
        text,
        record {
          checksum = sum;
          same_length = length-stored buffer enc.size n long room small ∙ sym whole;
          again = record (cleared enc.cipher enc.provider enc.parameter after enc.size enc.crc32) {
            size = n;
            state = complete;
          };
          known = rw (is, read, less, right) refl;
          same_size = refl;
        },
      )

  pub set_size-Opened :
      (cipher : EncCipher)
      → enc.cipher ≡ cipher
      → Fits (impl_of cipher) (length out) enc.size
      → (opened : EncContext) × (set_size enc f (over out enc.content) ≡ some opened)
        × (opened.size ≡ length out)
        × (take opened.size opened.content ≡ out)
        × Opened enc opened
  set_size-Opened xor is fits = unpadded-Opened is fits
  set_size-Opened des is fits = padded-Opened (ap has_padding is) fits
  set_size-Opened tdes is fits = padded-Opened (ap has_padding is) fits
