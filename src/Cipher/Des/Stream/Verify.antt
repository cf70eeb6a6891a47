-- ===== src/Cipher/Des/Stream/Verify.antt =====
-- `des_verify` against `des_decrypt`.
use lavender.Base.{ℕ, suc, ◌+◌, ◌-◌, ◌*◌, ◌≤◌, ◌<◌, ◌≡◌, refl, ap, sym, ◌∙◌, true, false}
use lavender.Base.{
  Bytes, List, [], ◌∷◌, ◌++◌, some, length, drop, arith, get_or, ltb, ◌==◌, inl, inr, ◌⊎◌,
}
use lavender.Base.{length-append}
use native.Mathlib.Decide.{dec_le}
use lavender.Cipher.Stream.{Stream, Context}
use lavender.Zip.Crc.{calculate_crc}
use lavender.Zip.Crc.Indirect.{calculate_crc_indirect-calculate_crc}
use lavender.Cipher.Des.Stream.{from_bytes, des_at, des_decrypt, des_verify}
use lavender.Cipher.Des.Stream.Plain.{last_of, IsSealed, padding, plain_text, last_block}
use lavender.Cipher.Des.Stream.Decrypt.{des_decrypt-plain_text, lowest_byte}
use lavender.Cipher.Des.Stream.At.{Inv, gives_plain_text, length-plain_text, load_at}

get_or_last :
    (previous : ℕ) (init : List ℕ) (final : ℕ)
    → get_or (previous ∷ init ++ final ∷ []) (length init) 0 ≡ last_of previous init
get_or_last previous [] final = refl
get_or_last previous (x ∷ init) final = get_or_last x init final

get_or_final : (init : List ℕ) (final : ℕ) → get_or (init ++ final ∷ []) (length init) 0 ≡ final
get_or_final [] final = refl
get_or_final (x ∷ init) final = get_or_final init final

module _ {iv : ℕ} {init : List ℕ} {final : ℕ} {c : Context} {stream : Stream}
    (h : IsSealed iv init final c stream) (fresh : c.at_pos ≡ 0) where
  start-Inv : Inv h stream
  start-Inv = record {
    cache = c;
    same_content = refl;
    same_key_length = refl;
    has_cache = h.context_is;
    same_subkeys = refl;
    cached = inl fresh;
  }

  last_iv : from_bytes (drop (stream.data_length - 8 - 8) stream.content) ≡ some (last_of iv init)
  last_iv =
      let e : stream.data_length - 8 - 8 ≡ 8 * length init = omega (arith, h.length_is) in
      ap (λ (n : ℕ). from_bytes (drop n stream.content)) e
      ∙ load_at h (length init) (omega (arith, length-append init (final ∷ [])))
      ∙ ap some (get_or_last iv init final)

  last_ct : from_bytes (drop (stream.data_length - 8) stream.content) ≡ some final
  last_ct =
      let e : stream.data_length - 8 ≡ 8 * suc (length init) = omega (arith, h.length_is) in
      ap (λ (n : ℕ). from_bytes (drop n stream.content)) e
      ∙ load_at h (suc (length init)) (omega (arith, length-append init (final ∷ [])))
      ∙ ap some (get_or_final init final)

  -- A padding above eight bytes is refused, with no checksum taken.
  pub des_verify-padding :
      (crc : ℕ) → 8 < padding iv init final c stream → des_verify stream crc ≡ some false
  unfolding des_verify
  des_verify-padding crc wide =
      let long : ltb stream.data_length 16 ≡ false = ground (arith, h.length_is) in
      let over : ltb 8 (padding iv init final c stream) ≡ true = ground arith in
      simp (
        long,
        h.context_is,
        last_iv,
        last_ct,
        lowest_byte (last_block iv init final c stream),
        over,
      )

  -- With a smaller padding `des_verify` accepts exactly the checksum of what `des_decrypt` writes.
  pub des_verify-checksum :
      (crc : ℕ)
      → padding iv init final c stream ≤ 8
      → des_verify stream crc ≡ some (crc == calculate_crc (plain_text iv init final c stream))
  unfolding des_verify
  des_verify-checksum crc fits =
      let text = plain_text iv init final c stream in
      let long : ltb stream.data_length 16 ≡ false = ground (arith, h.length_is) in
      let room : ltb 8 (padding iv init final c stream) ≡ false = ground arith in
      let (s', run, _) =
        calculate_crc_indirect-calculate_crc (Inv h) des_at text stream start-Inv
          (gives_plain_text h fits) in
      let whole : stream.data_length - 8 - padding iv init final c stream ≡ length text =
        omega (arith, h.length_is, length-plain_text h fits) in
      simp (
        long,
        h.context_is,
        last_iv,
        last_ct,
        lowest_byte (last_block iv init final c stream),
        room,
        whole,
        run,
      )

-- `des_verify` on a sealed stream whose cache is empty: a padding above eight bytes is refused;
-- otherwise `des_decrypt` succeeds, and `des_verify` accepts exactly the checksum of what it writes.
pub des_verify-des_decrypt :
    {iv : ℕ} {init : List ℕ} {final : ℕ} {c : Context} {stream : Stream}
    → IsSealed iv init final c stream
    → c.at_pos ≡ 0
    → (crc : ℕ)
    → ((8 < padding iv init final c stream) × (des_verify stream crc ≡ some false))
      ⊎ ((padding iv init final c stream ≤ 8)
          × (s' : Stream) × (out : Bytes) × (des_decrypt stream ≡ some (s', true, out))
          × (s'.data_length ≡ length out)
          × (des_verify stream crc ≡ some (crc == calculate_crc out)))
des_verify-des_decrypt {iv} {init} {final} {c} {stream} h fresh crc =
    elim (dec_le (padding iv init final c stream) 8) [
      | no big ↦ inl (omega arith, des_verify-padding h fresh crc (omega arith))
      | yes fits ↦ inr (
        fits,
        record stream { data_length = 8 * (1 + length init) - padding iv init final c stream },
        plain_text iv init final c stream,
        des_decrypt-plain_text h fits,
        sym (length-plain_text h fits),
        des_verify-checksum h fresh crc fits,
      )
    ]
