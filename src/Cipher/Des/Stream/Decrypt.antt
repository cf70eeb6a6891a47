-- ===== src/Cipher/Des/Stream/Decrypt.antt =====
-- What `des_decrypt` writes.
use lavender.Base.{ℕ, ◌+◌, ◌-◌, ◌*◌, ◌/◌, ◌%◌, ◌≤◌, ◌≡◌, refl, ap, sym, ◌∙◌}
use lavender.Base.{Bytes, List, [], ◌∷◌, ◌++◌, some, All, length, arith, true, false, ltb}
use lavender.Base.{get_or}
use mathlib.Core.List.{append_assoc}
use lavender.Cipher.Stream.{Stream, Context}
use lavender.Cipher.Des.Stream.{from_bytes, to_bytes, decrypt_loop, copy_unpadded, des_decrypt}
use lavender.Cipher.Des.Stream.Blocks.{IsBlock, bytes_of, from_bytes-to_bytes, drop-to_bytes}
use lavender.Cipher.Des.Stream.Plain.{
  plain_blocks, last_of, IsSealed, padding, plain_text, last_block, pt_of,
}

pub All-first : (xs : List ℕ) (y : ℕ) → All IsBlock (xs ++ y ∷ []) → All IsBlock xs
All-first [] y h = tt
All-first (x ∷ xs) y h = (h.0, All-first xs y h.1)

pub All-final : (xs : List ℕ) (y : ℕ) → All IsBlock (xs ++ y ∷ []) → IsBlock y
All-final [] y h = h.0
All-final (x ∷ xs) y h = All-final xs y h.1

decrypt_loop-plain_blocks :
    (pt : ℕ → ℕ → ℕ) (init : List ℕ) (rest : Bytes) (previous : ℕ)
    → All IsBlock init
    → decrypt_loop pt (length init) (bytes_of init ++ rest) previous
      ≡ some (bytes_of (plain_blocks pt previous init), rest, last_of previous init)
unfolding decrypt_loop bytes_of plain_blocks
decrypt_loop-plain_blocks pt [] rest previous h = refl
decrypt_loop-plain_blocks pt (ct ∷ init) rest previous h =
    let later = bytes_of init ++ rest in
    rw (append_assoc (to_bytes ct) (bytes_of init) rest) (
      simp (
        from_bytes-to_bytes ct later h.0,
        drop-to_bytes ct later,
        decrypt_loop-plain_blocks pt init rest ct h.1,
      ))

pub bytes_of-append : (xs ys : List ℕ) → bytes_of (xs ++ ys) ≡ bytes_of xs ++ bytes_of ys
unfolding bytes_of
bytes_of-append [] ys = refl
bytes_of-append (x ∷ xs) ys =
    ap (λ (t : Bytes). to_bytes x ++ t) (bytes_of-append xs ys)
    ∙ sym (append_assoc (to_bytes x) (bytes_of xs) (bytes_of ys))

pub bytes_of_cons : (n : ℕ) (ns : List ℕ) → bytes_of (n ∷ ns) ≡ to_bytes n ++ bytes_of ns
unfolding bytes_of
bytes_of_cons n ns = refl

pub lowest_byte : (n : ℕ) → get_or (to_bytes n) 7 0 ≡ n % 256
unfolding to_bytes
lowest_byte n = refl

module _ {iv : ℕ} {init : List ℕ} {final : ℕ} {c : Context} {stream : Stream}
    (h : IsSealed iv init final c stream) where
  rounds_lem : (8 * (1 + length init) - 8 + 7) / 8 ≡ length init
  rounds_lem = omega arith

  -- With a padding of at most eight bytes `des_decrypt` writes the plain text without its padding, and
  -- sets the stream's length to that of this text.
  pub des_decrypt-plain_text :
      padding iv init final c stream ≤ 8
      → des_decrypt stream
        ≡ some (
          record stream { data_length = 8 * (1 + length init) - padding iv init final c stream },
          true,
          plain_text iv init final c stream,
        )
  unfolding des_decrypt copy_unpadded
  des_decrypt-plain_text fits =
      let pt = pt_of iv init final c stream in
      let rest = bytes_of (final ∷ []) in
      let split : stream.content ≡ to_bytes iv ++ (bytes_of init ++ rest) =
        h.content_is
        ∙ bytes_of_cons iv (init ++ final ∷ [])
        ∙ ap (λ (t : Bytes). to_bytes iv ++ t) (bytes_of-append init (final ∷ [])) in
      let long : ltb stream.data_length 8 ≡ false = ground (arith, h.length_is) in
      let loaded : from_bytes rest ≡ some final =
        ap from_bytes (bytes_of_cons final [])
        ∙ from_bytes-to_bytes final (bytes_of []) (All-final init final h.blocks.1) in
      let room : ltb 8 (padding iv init final c stream) ≡ false = ground arith in
      let total : stream.data_length - 8 ≡ 8 * (1 + length init) = omega (arith, h.length_is) in
      simp (
        long,
        h.context_is,
        rounds_lem,
        split,
        from_bytes-to_bytes iv (bytes_of init ++ rest) h.blocks.0,
        drop-to_bytes iv (bytes_of init ++ rest),
        decrypt_loop-plain_blocks pt init rest iv (All-first init final h.blocks.1),
        loaded,
        lowest_byte (last_block iv init final c stream),
        room,
        total,
      )
