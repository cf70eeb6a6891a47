-- ===== src/Utf8/Decode.antt =====
-- Decoding against `utf8_get_sequence`.
use lavender.Base.{ℕ, ◌+◌, ◌*◌, ◌/◌, ◌%◌, ◌^◌, ◌≤◌, ◌<◌, ◌≡◌, refl, ap, ◌∙◌}
use lavender.Base.{Bytes, [], ◌∷◌, ◌++◌, some, length, arith, true, bit_and}
use lavender.Base.{◌==◌, ◌&&◌, ◌⊎◌, inl, inr}
use lavender.Bits.Fields.{bit_or-add, bit_and_mask, check_below, check_below_sound}
use lavender.Utf8.{point, continue_at, get_codepoint, get_sequence}

-- The masks over a byte, as arithmetic.
masks_table :
    check_below 256 (λ b.
      (bit_and b 0xC0 == b / 64 * 64)
      && (bit_and b 0x20 == b / 32 % 2 * 32)
      && (bit_and b 0x10 == b / 16 % 2 * 16)
      && (bit_and b 0x08 == b / 8 % 2 * 8))
    ≡ true
unfolding check_below
masks_table = refl

abbrev Masks : ℕ → Type 0
Masks b =
    (bit_and b 0xC0 ≡ b / 64 * 64)
    × (bit_and b 0x20 ≡ b / 32 % 2 * 32)
    × (bit_and b 0x10 ≡ b / 16 % 2 * 16)
    × (bit_and b 0x08 ≡ b / 8 % 2 * 8)

pub masks_lem : (b : ℕ) → b < 256 → Masks b
masks_lem b h = ground (arith, check_below_sound 256 _ b masks_table h)

two_bytes :
    (hi lo : ℕ) (rest : Bytes)
    → hi < 32
    → lo < 64
    → get_codepoint ((192 + hi) ∷ (128 + lo) ∷ rest) ≡ some (point (hi * 64 + lo) 2)
unfolding get_codepoint continue_at
two_bytes hi lo rest p q = ground (
  arith,
  masks_lem (192 + hi) (omega arith),
  masks_lem (128 + lo) (omega arith),
  bit_and_mask 5 (192 + hi),
  bit_and_mask 6 (128 + lo),
  bit_or-add 6 hi lo q,
)

three_bytes :
    (hi mid lo : ℕ) (rest : Bytes)
    → hi < 16
    → mid < 64
    → lo < 64
    → get_codepoint ((224 + hi) ∷ (128 + mid) ∷ (128 + lo) ∷ rest)
      ≡ some (point ((hi * 64 + mid) * 64 + lo) 3)
unfolding get_codepoint continue_at
three_bytes hi mid lo rest p q r = ground (
  arith,
  masks_lem (224 + hi) (omega arith),
  masks_lem (128 + mid) (omega arith),
  masks_lem (128 + lo) (omega arith),
  bit_and_mask 5 (224 + hi),
  bit_and_mask 4 ((224 + hi) % 32),
  bit_and_mask 6 (128 + mid),
  bit_and_mask 6 (128 + lo),
  bit_or-add 6 hi mid q,
  bit_or-add 6 (hi * 64 + mid) lo r,
)

one_byte : (b : ℕ) (rest : Bytes) → b < 128 → get_codepoint (b ∷ rest) ≡ some (point b 1)
unfolding get_codepoint
one_byte b rest p = ground (arith, masks_lem b (omega arith))

-- The bytes of each of the three forms.
pub sequence_one : (wc : ℕ) → wc < 128 → get_sequence wc ≡ wc ∷ []
unfolding get_sequence
sequence_one wc h = ground arith

pub sequence_two :
    (wc : ℕ) → 128 ≤ wc → wc < 2048 → get_sequence wc ≡ (192 + wc / 64) ∷ (128 + wc % 64) ∷ []
unfolding get_sequence
sequence_two wc h k =
    ground (arith, bit_or-add 5 6 (wc / 64), bit_and_mask 6 wc, bit_or-add 6 2 (wc % 64))

pub sequence_three :
    (wc : ℕ)
    → 2048 ≤ wc
    → wc < 2 ^ 16
    → get_sequence wc ≡ (224 + wc / 4096) ∷ (128 + wc / 64 % 64) ∷ (128 + wc % 64) ∷ []
unfolding get_sequence
sequence_three wc h k = ground (
  arith,
  bit_or-add 4 14 (wc / 4096),
  bit_and_mask 6 wc,
  bit_and_mask 6 (wc / 64),
  bit_or-add 6 2 (wc % 64),
  bit_or-add 6 2 (wc / 64 % 64),
)

decode_wide :
    (wc : ℕ) (rest : Bytes)
    → wc < 2 ^ 16
    → (wc < 128) ⊎ (128 ≤ wc)
    → (wc < 2048) ⊎ (2048 ≤ wc)
    → get_codepoint (get_sequence wc ++ rest) ≡ some (point wc (length (get_sequence wc)))
decode_wide wc rest h (inl a) c = rw (sequence_one wc a) (one_byte wc rest a)
decode_wide wc rest h (inr a) (inl c) = rw (sequence_two wc a c) (
    two_bytes (wc / 64) (wc % 64) rest (omega arith) (omega arith)
    ∙ ap (λ (n : ℕ). some (point n 2)) (omega arith))
decode_wide wc rest h (inr a) (inr c) = rw (sequence_three wc c h) (
    three_bytes (wc / 4096) (wc / 64 % 64) (wc % 64) rest (omega arith) (omega arith) (omega arith)
    ∙ ap (λ (n : ℕ). some (point n 3)) (omega arith))

-- `utf8_get_codepoint` reads back every code point that `utf8_get_sequence` writes, whatever stands
-- behind it, and gives the length of what was written.
pub get_codepoint-get_sequence :
    (wc : ℕ) (rest : Bytes)
    → wc < 2 ^ 16
    → get_codepoint (get_sequence wc ++ rest) ≡ some (point wc (length (get_sequence wc)))
get_codepoint-get_sequence wc rest h = decode_wide wc rest h (omega arith) (omega arith)
