-- ===== src/Cipher/Des/Stream/Encrypt.antt =====
-- CBC encryption, as the specification of what a DES or triple DES stream holds (the packing tool
-- makes such streams), and that `des_decrypt` reads it back.
use lavender.Base.{ℕ, suc, ◌+◌, ◌-◌, ◌*◌, ◌%◌, ◌^◌, ◌≤◌, ◌<◌, ◌≡◌, refl, ap, ap₂, ◌∙◌, true}
use lavender.Base.{
  Bytes, List, [], ◌∷◌, ◌++◌, some, All, length, length-append, drop, take, arith, ◌==◌, bit_xor,
}
use lavender.Base.{if◌then◌else◌, false, Bool-cases, inl, inr}
use lavender.Bits.Xor.{bit_xor_cancel, bit_xor-lt}
use lavender.Cipher.Stream.{Stream, Context}
use lavender.Cipher.Des.{des}
use lavender.Cipher.Des.Tables.{des_rounds}
use lavender.Cipher.Des.RoundTrip.{des-lt, des_round_trip}
use lavender.Cipher.Des.Stream.{get_pt, to_bytes, des_decrypt}
use lavender.Cipher.Des.Stream.Blocks.{IsBlock, bytes_of, length-bytes_of}
use lavender.Cipher.Des.Stream.Plain.{plain_blocks, last_of, IsSealed, last_block, plain_text}
use lavender.Cipher.Des.Stream.Decrypt.{All-first, All-final, des_decrypt-plain_text}

-- One block: DES, or with two keys encryption, decryption and encryption.
unfoldable pub encrypt_block : List ℕ → ℕ → ℕ → ℕ
encrypt_block subkeys key_length m =
    if key_length == 16
    then des subkeys (des (drop des_rounds subkeys) (des subkeys m true) false) true
    else des subkeys m true

-- Each plain block is joined with the block before it and encrypted.
unfoldable pub cbc_encrypt : List ℕ → ℕ → ℕ → List ℕ → List ℕ
cbc_encrypt subkeys key_length previous [] = []
cbc_encrypt subkeys key_length previous (p ∷ ps) =
    let ct = encrypt_block subkeys key_length (bit_xor p previous) in
    ct ∷ cbc_encrypt subkeys key_length ct ps

module _ (subkeys : List ℕ) (key_length : ℕ) where
  encrypt_block-lt : (m : ℕ) → encrypt_block subkeys key_length m < 2 ^ 64
  unfolding encrypt_block
  encrypt_block-lt m = elim (Bool-cases (key_length == 16)) [
    | inl e ↦ rw e (des-lt subkeys (des (drop des_rounds subkeys) (des subkeys m true) false) true)
    | inr e ↦ rw e (des-lt subkeys m true)
  ]

  get_pt-encrypt_block :
      (m previous : ℕ)
      → m < 2 ^ 64
      → get_pt subkeys key_length previous (encrypt_block subkeys key_length m) ≡ bit_xor m previous
  unfolding encrypt_block get_pt
  get_pt-encrypt_block m previous h = elim (Bool-cases (key_length == 16)) [
    | inl e ↦ rw e (ap (λ (t : ℕ). bit_xor t previous) triple)
    | inr e ↦ rw e (ap (λ (t : ℕ). bit_xor t previous) (des_round_trip subkeys m h).0)
  ]
    where
      second : List ℕ
      second = drop des_rounds subkeys

      triple :
          des subkeys
            (des second
              (des subkeys (des subkeys (des second (des subkeys m true) false) true) false)
              true)
            false
          ≡ m
      triple =
          let one = des subkeys m true in
          let two = des second one false in
          ap (λ (t : ℕ). des subkeys (des second t true) false)
            (des_round_trip subkeys two (des-lt second one false)).0
          ∙ ap (λ (t : ℕ). des subkeys t false)
              (des_round_trip second one (des-lt subkeys m true)).1
          ∙ (des_round_trip subkeys m h).0

  pub plain_blocks-cbc_encrypt :
      (previous : ℕ) (ps : List ℕ)
      → previous < 2 ^ 64
      → All IsBlock ps
      → plain_blocks
          (get_pt subkeys key_length)
          previous
          (cbc_encrypt subkeys key_length previous ps)
        ≡ ps
  unfolding plain_blocks cbc_encrypt
  plain_blocks-cbc_encrypt previous [] h hs = refl
  plain_blocks-cbc_encrypt previous (p ∷ ps) h hs =
      let m = bit_xor p previous in
      let small : m < 2 ^ 64 = bit_xor-lt 64 p previous hs.0 h in
      let ct = encrypt_block subkeys key_length m in
      ap₂ ◌∷◌ (get_pt-encrypt_block m previous small ∙ bit_xor_cancel p previous)
        (plain_blocks-cbc_encrypt ct ps (encrypt_block-lt m) hs.1)

  pub cbc_encrypt-All :
      (previous : ℕ) (ps : List ℕ) → All IsBlock (cbc_encrypt subkeys key_length previous ps)
  unfolding cbc_encrypt
  cbc_encrypt-All previous [] = tt
  cbc_encrypt-All previous (p ∷ ps) =
      let m = bit_xor p previous in
      (encrypt_block-lt m, cbc_encrypt-All (encrypt_block subkeys key_length m) ps)

  last_of-lt :
      (previous : ℕ) (cts : List ℕ)
      → previous < 2 ^ 64
      → All IsBlock cts
      → last_of previous cts < 2 ^ 64
  last_of-lt previous [] h hs = h
  last_of-lt previous (ct ∷ cts) h hs = last_of-lt ct cts hs.0 hs.1

  -- The last encrypted block.
  abbrev final_of : ℕ → List ℕ → ℕ → ℕ
  final_of iv ps p =
      encrypt_block subkeys key_length
        (bit_xor p (last_of iv (cbc_encrypt subkeys key_length iv ps)))

  cbc_encrypt-append :
      (iv : ℕ) (ps : List ℕ) (p : ℕ)
      → cbc_encrypt subkeys key_length iv (ps ++ p ∷ [])
        ≡ cbc_encrypt subkeys key_length iv ps ++ final_of iv ps p ∷ []
  unfolding cbc_encrypt
  cbc_encrypt-append iv [] p = refl
  cbc_encrypt-append iv (x ∷ ps) p =
      let ct = encrypt_block subkeys key_length (bit_xor x iv) in
      ap (◌∷◌ ct) (cbc_encrypt-append ct ps p)

length-cbc_encrypt :
    (subkeys : List ℕ) (key_length previous : ℕ) (ps : List ℕ)
    → length (cbc_encrypt subkeys key_length previous ps) ≡ length ps
unfolding cbc_encrypt
length-cbc_encrypt subkeys key_length previous [] = refl
length-cbc_encrypt subkeys key_length previous (p ∷ ps) = ap suc (
    length-cbc_encrypt subkeys key_length (encrypt_block subkeys key_length (bit_xor p previous))
      ps)

-- The plain text of the blocks, the last of which counts its padding in its lowest byte.
abbrev pub text_of : List ℕ → ℕ → Bytes
text_of ps p = bytes_of ps ++ take (8 - p % 256) (to_bytes p)

-- A stream of what CBC encryption makes of blocks is sealed, and stands for their text.
pub cbc_encrypt-IsSealed :
    (stream : Stream) (c : Context) (iv : ℕ) (ps : List ℕ) (p : ℕ)
    → All IsBlock (iv ∷ ps ++ p ∷ [])
    → stream.context ≡ some c
    → stream.content ≡ bytes_of (iv ∷ cbc_encrypt c.subkeys stream.key_length iv (ps ++ p ∷ []))
    → stream.data_length ≡ length stream.content
    → (init : List ℕ) × (final : ℕ) × IsSealed iv init final c stream
      × (length init ≡ length ps)
      × (last_block iv init final c stream ≡ p)
      × (plain_text iv init final c stream ≡ text_of ps p)
cbc_encrypt-IsSealed stream c iv ps p blocks has_context has_content whole =
    let keys = c.subkeys in
    let n = stream.key_length in
    let init = cbc_encrypt keys n iv ps in
    let final = final_of keys n iv ps p in
    let same = cbc_encrypt-append keys n iv ps p in
    let ps_ok : All IsBlock ps = All-first ps p blocks.1 in
    let p_ok : p < 2 ^ 64 = All-final ps p blocks.1 in
    let texts : plain_blocks (get_pt keys n) iv init ≡ ps =
      plain_blocks-cbc_encrypt keys n iv ps blocks.0 ps_ok in
    let before = last_of iv init in
    let before_ok : before < 2 ^ 64 =
      last_of-lt keys n iv init blocks.0 (cbc_encrypt-All keys n iv ps) in
    let last : get_pt keys n before final ≡ p =
      get_pt-encrypt_block keys n (bit_xor p before) before (bit_xor-lt 64 p before p_ok before_ok)
      ∙ bit_xor_cancel p before in
    let counted : stream.data_length ≡ 8 * (2 + length init) = omega (
      arith,
      whole,
      ap length has_content,
      length-bytes_of (iv ∷ cbc_encrypt keys n iv (ps ++ p ∷ [])),
      ap length same,
      length-append init (final ∷ []),
    ) in
    (
      init,
      final,
      record {
        blocks = (blocks.0, rw same at (cbc_encrypt-All keys n iv (ps ++ p ∷ [])));
        content_is = has_content ∙ ap (λ (t : List ℕ). bytes_of (iv ∷ t)) same;
        length_is = counted;
        context_is = has_context;
      },
      length-cbc_encrypt keys n iv ps,
      last,
      rw (texts, last) refl,
    )

-- `des_decrypt` reads back what CBC encryption with the stream's subkeys makes of the blocks `ps` and
-- `p`, less the padding that the lowest byte of `p` counts, for both key lengths; and the stream's
-- length becomes that of the text.
pub des_decrypt-cbc_encrypt :
    (stream : Stream) (c : Context) (iv : ℕ) (ps : List ℕ) (p : ℕ)
    → All IsBlock (iv ∷ ps ++ p ∷ [])
    → p % 256 ≤ 8
    → stream.context ≡ some c
    → stream.content ≡ bytes_of (iv ∷ cbc_encrypt c.subkeys stream.key_length iv (ps ++ p ∷ []))
    → stream.data_length ≡ length stream.content
    → des_decrypt stream
      ≡ some (
        record stream { data_length = 8 * (1 + length ps) - p % 256 },
        true,
        bytes_of ps ++ take (8 - p % 256) (to_bytes p),
      )
des_decrypt-cbc_encrypt stream c iv ps p blocks fits has_context has_content whole =
    let (init, final, sealed, count, last, text) =
      cbc_encrypt-IsSealed stream c iv ps p blocks has_context has_content whole in
    des_decrypt-plain_text sealed (rw last fits) ∙ ap some (rw (text, last, count) refl)
