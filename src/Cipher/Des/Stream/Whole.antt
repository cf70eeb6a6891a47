-- ===== src/Cipher/Des/Stream/Whole.antt =====
-- Any bytes in whole blocks, at least two of them, are a stream: what `des_verify` and `des_decrypt` do with it.
use lavender.Base.{
  ℕ, zero, suc, ◌+◌, ◌-◌, ◌*◌, ◌/◌, ◌%◌, ◌^◌, ◌≤◌, ◌<◌, ◌≡◌, refl, ap, ap₂, sym, ◌∙◌, true, false,
}
use lavender.Base.{
  Bytes, List, [], ◌∷◌, ◌++◌, some, All, length, arith, inl, inr, ◌==◌, Bool-cases, ==_iff,
}
use mathlib.Core.Path.{subst}
use native.Mathlib.Decide.{dec_le}
use lavender.Cipher.Stream.{Stream, Context}
use lavender.Zip.Crc.{calculate_crc}
use lavender.Cipher.Des.Stream.{to_bytes, des_verify, des_decrypt}
use lavender.Cipher.Des.Stream.Blocks.{IsBlock, bytes_of}
use lavender.Cipher.Des.Stream.Plain.{IsSealed, padding, plain_text}
use lavender.Cipher.Des.Stream.Verify.{des_verify-padding, des_verify-checksum}
use lavender.Cipher.Des.Stream.At.{length-plain_text}
use lavender.Cipher.Des.Stream.Decrypt.{des_decrypt-plain_text}

abbrev pub IsByte : ℕ → Type 0
IsByte b = b < 256

-- Eight bytes as a block.
abbrev block_of : ℕ → ℕ → ℕ → ℕ → ℕ → ℕ → ℕ → ℕ → ℕ
block_of a b c d e f g h =
    a * 2 ^ 56 + b * 2 ^ 48 + c * 2 ^ 40 + d * 2 ^ 32 + e * 2 ^ 24 + f * 2 ^ 16 + g * 2 ^ 8 + h

to_bytes-block_of :
    (a b c d e f g h : ℕ)
    → All IsByte (a ∷ b ∷ c ∷ d ∷ e ∷ f ∷ g ∷ h ∷ [])
    → a ∷ b ∷ c ∷ d ∷ e ∷ f ∷ g ∷ h ∷ [] ≡ to_bytes (block_of a b c d e f g h)
unfolding to_bytes
to_bytes-block_of a b c d e f g h all =
    let n = block_of a b c d e f g h in
    let p0 : a ≡ n / 2 ^ 56 % 256 = omega arith in
    let p1 : b ≡ n / 2 ^ 48 % 256 = omega arith in
    let p2 : c ≡ n / 2 ^ 40 % 256 = omega arith in
    let p3 : d ≡ n / 2 ^ 32 % 256 = omega arith in
    let p4 : e ≡ n / 2 ^ 24 % 256 = omega arith in
    let p5 : f ≡ n / 2 ^ 16 % 256 = omega arith in
    let p6 : g ≡ n / 2 ^ 8 % 256 = omega arith in
    let p7 : h ≡ n % 256 = omega arith in
    λ i. p0 i ∷ p1 i ∷ p2 i ∷ p3 i ∷ p4 i ∷ p5 i ∷ p6 i ∷ p7 i ∷ []

block_of-IsBlock :
    (a b c d e f g h : ℕ)
    → All IsByte (a ∷ b ∷ c ∷ d ∷ e ∷ f ∷ g ∷ h ∷ [])
    → IsBlock (block_of a b c d e f g h)
block_of-IsBlock a b c d e f g h all = omega arith

-- Whole blocks of bytes are the bytes of blocks.
blocks_of :
    (k : ℕ) (bytes : Bytes)
    → length bytes ≡ 8 * k
    → All IsByte bytes
    → (blocks : List ℕ) × (bytes ≡ bytes_of blocks) × All IsBlock blocks × (length blocks ≡ k)
unfolding bytes_of
blocks_of zero [] e h = ([], refl, tt, refl)
blocks_of zero (x ∷ bytes) e h = absurd (omega arith)
blocks_of (suc k) (a ∷ b ∷ c ∷ d ∷ e ∷ f ∷ g ∷ h ∷ bytes) l
      (pa, (pb, (pc, (pd, (pe, (pf, (pg, (ph, all)))))))) =
    let (blocks, eq, ok, count) = blocks_of k bytes (omega arith) all in
    let eight : All IsByte (a ∷ b ∷ c ∷ d ∷ e ∷ f ∷ g ∷ h ∷ []) =
      (pa, (pb, (pc, (pd, (pe, (pf, (pg, (ph, tt)))))))) in
    (
      block_of a b c d e f g h ∷ blocks,
      ap₂ ◌++◌ (to_bytes-block_of a b c d e f g h eight) eq,
      (block_of-IsBlock a b c d e f g h eight, ok),
      ap suc count,
    )
blocks_of (suc k) _ l all = absurd (omega arith)

-- A list of two elements or more has a first, a last and the others.
ends :
    (xs : List ℕ) (n : ℕ)
    → length xs ≡ suc (suc n)
    → (x : ℕ) × (init : List ℕ) × (y : ℕ) × (xs ≡ x ∷ init ++ y ∷ []) × (length init ≡ n)
ends [] n e = absurd (omega arith)
ends (x ∷ []) n e = absurd (omega arith)
ends (x ∷ y ∷ []) n e = (x, [], y, refl, omega arith)
ends (x ∷ y ∷ z ∷ xs) zero e = absurd (omega arith)
ends (x ∷ y ∷ z ∷ xs) (suc n) e =
    let (v, init, w, eq, l) = ends (y ∷ z ∷ xs) n (omega arith) in
    (x, v ∷ init, w, ap (λ (t : List ℕ). x ∷ t) eq, ap suc l)

-- A stream of whole blocks whose cache is empty.
pub record IsWhole (k : ℕ) (c : Context) (s : Stream) : Type 0 where
  pub bytes : All IsByte s.content
  pub length_is : length s.content ≡ 8 * (2 + k)
  pub data_length_is : s.data_length ≡ 8 * (2 + k)
  pub context_is : s.context ≡ some c
  pub fresh : c.at_pos ≡ 0

whole-IsSealed :
    {k : ℕ} {c : Context} (s : Stream)
    → IsWhole k c s
    → (iv : ℕ) × (init : List ℕ) × (final : ℕ) × IsSealed iv init final c s × (length init ≡ k)
whole-IsSealed {k} {c} s w =
    let (blocks, eq, ok, count) = blocks_of (2 + k) s.content w.length_is w.bytes in
    let (iv, init, final, parts, l) = ends blocks k (omega (arith, count)) in
    (
      iv,
      init,
      final,
      record {
        blocks = subst (λ (xs : List ℕ). All IsBlock xs) parts ok;
        content_is = eq ∙ ap bytes_of parts;
        length_is = omega (arith, w.data_length_is, l);
        context_is = w.context_is;
      },
      l,
    )

-- What `des_verify` and `des_decrypt` do with such a stream: the checksum is refused, or it is that of the
-- text that decryption gives.
pub data Verified (s : Stream) (crc : ℕ) : Type 0 where
  refused : des_verify s crc ≡ some false → Verified s crc
  accepted :
      (s' : Stream) (out : Bytes)
      → des_verify s crc ≡ some true
      → des_decrypt s ≡ some (s', true, out)
      → s'.data_length ≡ length out
      → length out + 8 ≤ s.data_length
      → calculate_crc out ≡ crc
      → Verified s crc

pub whole-Verified : {k : ℕ} {c : Context} (s : Stream) (crc : ℕ) → IsWhole k c s → Verified s crc
whole-Verified {k} {c} s crc w =
    let (iv, init, final, h, l) = whole-IsSealed s w in
    elim (dec_le (padding iv init final c s) 8) [
      | no big ↦ refused (des_verify-padding h w.fresh crc (omega arith))
      | yes small ↦
          let text = plain_text iv init final c s in
          let size = length-plain_text h small in
          let checked = des_verify-checksum h w.fresh crc small in
          elim (Bool-cases (crc == calculate_crc text)) [
            | inl same ↦
                accepted
                  (record s { data_length = 8 * (1 + length init) - padding iv init final c s })
                  text (rw same at checked) (des_decrypt-plain_text h small) (sym size)
                  (omega (arith, size, w.data_length_is, l))
                  (sym ((==_iff crc (calculate_crc text)).0 same))
            | inr differ ↦ refused (rw differ at checked)
          ]
    ]
