-- ===== src/Cipher/Des/Stream/Plain.antt =====
-- What a CBC stream stands for: the plain blocks, and the streams that this is said of.
use lavender.Base.{ℕ, zero, suc, ◌+◌, ◌-◌, ◌*◌, ◌%◌, ◌<◌, ◌≡◌, refl, ap, arith}
use lavender.Base.{Bytes, List, [], ◌∷◌, ◌++◌, some, All, length, get_or, take}
use lavender.Cipher.Stream.{Stream, Context}
use lavender.Cipher.Des.Stream.{get_pt, to_bytes}
use lavender.Cipher.Des.Stream.Blocks.{IsBlock, bytes_of}

-- Each block decrypted, and joined with the one before it.
unfoldable pub plain_blocks : (ℕ → ℕ → ℕ) → ℕ → List ℕ → List ℕ
plain_blocks pt_of previous [] = []
plain_blocks pt_of previous (ct ∷ cts) = pt_of previous ct ∷ plain_blocks pt_of ct cts

abbrev pub last_of : ℕ → List ℕ → ℕ
last_of previous [] = previous
last_of previous (ct ∷ cts) = last_of ct cts

pub length-plain_blocks :
    (pt_of : ℕ → ℕ → ℕ) (previous : ℕ) (cts : List ℕ)
    → length (plain_blocks pt_of previous cts) ≡ length cts
unfolding plain_blocks
length-plain_blocks pt_of previous [] = refl
length-plain_blocks pt_of previous (ct ∷ cts) = ap suc (length-plain_blocks pt_of ct cts)

pub get_or-plain_blocks :
    (pt_of : ℕ → ℕ → ℕ) (previous : ℕ) (cts : List ℕ) (k : ℕ)
    → k < length cts
    → get_or (plain_blocks pt_of previous cts) k 0
      ≡ pt_of (get_or (previous ∷ cts) k 0) (get_or cts k 0)
unfolding plain_blocks
get_or-plain_blocks pt_of previous [] k h = absurd (omega arith)
get_or-plain_blocks pt_of previous (ct ∷ cts) zero h = refl
get_or-plain_blocks pt_of previous (ct ∷ cts) (suc k) h =
    get_or-plain_blocks pt_of ct cts k (omega arith)

pub plain_blocks-append :
    (pt_of : ℕ → ℕ → ℕ) (previous : ℕ) (cts : List ℕ) (final : ℕ)
    → plain_blocks pt_of previous (cts ++ final ∷ [])
      ≡ plain_blocks pt_of previous cts ++ pt_of (last_of previous cts) final ∷ []
unfolding plain_blocks
plain_blocks-append pt_of previous [] final = refl
plain_blocks-append pt_of previous (ct ∷ cts) final =
    ap (◌∷◌ (pt_of previous ct)) (plain_blocks-append pt_of ct cts final)

-- A stream whose data are the blocks `iv`, `init` and `final`, with a context that holds subkeys.
pub record IsSealed (iv : ℕ) (init : List ℕ) (final : ℕ) (c : Context) (stream : Stream)
    : Type 0 where
  pub blocks : All IsBlock (iv ∷ init ++ final ∷ [])
  pub content_is : stream.content ≡ bytes_of (iv ∷ init ++ final ∷ [])
  pub length_is : stream.data_length ≡ 8 * (2 + length init)
  pub context_is : stream.context ≡ some c

module _ (iv : ℕ) (init : List ℕ) (final : ℕ) (c : Context) (stream : Stream) where
  abbrev pub pt_of : ℕ → ℕ → ℕ
  pt_of = get_pt c.subkeys stream.key_length

  -- The last plain block, whose lowest byte counts the padding.
  abbrev pub last_block : ℕ
  last_block = pt_of (last_of iv init) final

  abbrev pub padding : ℕ
  padding = last_block % 256

  -- All plain blocks, and the plain text without its padding.
  abbrev pub all_blocks : List ℕ
  all_blocks = plain_blocks pt_of iv (init ++ final ∷ [])

  abbrev pub plain_text : Bytes
  plain_text = bytes_of (plain_blocks pt_of iv init) ++ take (8 - padding) (to_bytes last_block)
