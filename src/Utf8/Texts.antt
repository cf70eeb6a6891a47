-- ===== src/Utf8/Texts.antt =====
-- The routines over whole texts, given as code points.
use lavender.Base.{ℕ, zero, suc, ◌+◌, ◌^◌, ◌≤◌, ◌<◌, ◌≡◌, refl, ap, ◌∙◌, List, [], ◌∷◌, ◌++◌}
use lavender.Base.{some, All, arith, false, Bytes, length, drop, drop-append, map}
use lavender.Base.{◌==◌, length-append, u8, get_elem?, ◌⊎◌, inl, inr, ◌/◌, ◌%◌}
use mathlib.Core.List.{append_assoc}
use lavender.Utf8.{
  point, get_codepoint, get_sequence, strlen_loop, strlen, encode_loop, encode, fold_case, Sign,
  less, same, greater,
}
use lavender.Utf8.Decode.{get_codepoint-get_sequence, sequence_one, sequence_two, sequence_three}

-- A code point that a text may hold: two bytes wide at most, and not the terminator.
abbrev pub IsPoint : ℕ → Type 0
IsPoint wc = (0 < wc) × (wc < 2 ^ 16)

-- The bytes of a text of code points.
unfoldable pub text_of : List ℕ → Bytes
text_of [] = []
text_of (wc ∷ wcs) = get_sequence wc ++ text_of wcs

-- What the loops see of a code point at the front of a text.
record Front (wc : ℕ) (rest : Bytes) : Type 0 where
  byte : ℕ
  read : get_elem? (get_sequence wc ++ rest) 0 ≡ some byte
  not_end : (byte == 0) ≡ false
  decoded : get_codepoint (get_sequence wc ++ rest) ≡ some (point wc (length (get_sequence wc)))
  not_empty : (length (get_sequence wc) == 0) ≡ false
  behind : drop (length (get_sequence wc)) (get_sequence wc ++ rest) ≡ rest

front_cases :
    (wc : ℕ) (rest : Bytes)
    → IsPoint wc
    → (wc < 128) ⊎ (128 ≤ wc)
    → (wc < 2048) ⊎ (2048 ≤ wc)
    → (b : ℕ) × (bytes : Bytes) × (get_sequence wc ≡ b ∷ bytes) × (0 < b)
front_cases wc rest h (inl a) c = (wc, [], sequence_one wc a, h.0)
front_cases wc rest h (inr a) (inl c) =
    (192 + wc / 64, (128 + wc % 64) ∷ [], sequence_two wc a c, omega arith)
front_cases wc rest h (inr a) (inr c) = (
  224 + wc / 4096,
  (128 + wc / 64 % 64) ∷ (128 + wc % 64) ∷ [],
  sequence_three wc c h.1,
  omega arith,
)

front : (wc : ℕ) (rest : Bytes) → IsPoint wc → Front wc rest
front wc rest h =
    let (b, bytes, e, pos) = front_cases wc rest h (omega arith) (omega arith) in
    record {
      byte = b;
      read = rw e refl;
      not_end = ground arith;
      decoded = get_codepoint-get_sequence wc rest h.1;
      not_empty = rw e (ground arith);
      behind = drop-append (get_sequence wc) rest;
    }

-- The rounds that a text takes are no more than its bytes.
length-text_of : (wcs : List ℕ) → All IsPoint wcs → length wcs ≤ length (text_of wcs)
unfolding text_of
length-text_of [] h = omega arith
length-text_of (wc ∷ wcs) (p, h) =
    let (b, bytes, e, pos) = front_cases wc [] p (omega arith) (omega arith) in
    omega (arith, length-append (get_sequence wc) (text_of wcs), ap length e, length-text_of wcs h)

strlen_loop-front :
    (fuel i : ℕ) (str : Bytes) {b cp n : ℕ}
    → get_elem? str 0 ≡ some b
    → (b == 0) ≡ false
    → get_codepoint str ≡ some (point cp n)
    → (n == 0) ≡ false
    → strlen_loop (suc fuel) str i ≡ strlen_loop fuel (drop n str) (i + 1)
unfolding strlen_loop
strlen_loop-front fuel i str read more decoded moves = ground arith

encode_loop-front :
    (encoder : ℕ → ℕ) (fuel : ℕ) (src : Bytes) {b cp n : ℕ} {dst : Bytes}
    → get_elem? src 0 ≡ some b
    → (b == 0) ≡ false
    → get_codepoint src ≡ some (point cp n)
    → (n == 0) ≡ false
    → encode_loop encoder fuel (drop n src) ≡ some (some dst)
    → encode_loop encoder (suc fuel) src ≡ some (some (u8 (encoder cp) ∷ dst))
unfolding encode_loop
encode_loop-front encoder fuel src read more decoded moves later = ground arith

strlen_loop-text_of :
    (fuel : ℕ) (wcs : List ℕ) (rest : Bytes) (i : ℕ)
    → All IsPoint wcs
    → length wcs < fuel
    → strlen_loop fuel (text_of wcs ++ 0 ∷ rest) i ≡ some (some (i + length wcs))
unfolding text_of
strlen_loop-text_of zero wcs rest i h enough = absurd (omega arith)
strlen_loop-text_of (suc fuel) [] rest i h enough =
    unfold strlen_loop in ap (λ (n : ℕ). some (some n)) (omega arith)
strlen_loop-text_of (suc fuel) (wc ∷ wcs) rest i (p, h) enough =
    let later = text_of wcs ++ 0 ∷ rest in
    let f = front wc later p in
    rw (append_assoc (get_sequence wc) (text_of wcs) (0 ∷ rest)) (
      strlen_loop-front fuel i (get_sequence wc ++ later) f.read f.not_end f.decoded f.not_empty
      ∙ ap (λ (s : Bytes). strlen_loop fuel s (i + 1)) f.behind
      ∙ strlen_loop-text_of fuel wcs rest (i + 1) h (omega arith)
      ∙ ap (λ (n : ℕ). some (some n)) (omega arith))

encode_loop-text_of :
    (encoder : ℕ → ℕ) (fuel : ℕ) (wcs : List ℕ) (rest : Bytes)
    → All IsPoint wcs
    → length wcs < fuel
    → encode_loop encoder fuel (text_of wcs ++ 0 ∷ rest)
      ≡ some (some (map (λ wc. u8 (encoder wc)) wcs))
unfolding text_of
encode_loop-text_of encoder zero wcs rest h enough = absurd (omega arith)
encode_loop-text_of encoder (suc fuel) [] rest h enough = unfold encode_loop in refl
encode_loop-text_of encoder (suc fuel) (wc ∷ wcs) rest (p, h) enough =
    let later = text_of wcs ++ 0 ∷ rest in
    let f = front wc later p in
    rw (append_assoc (get_sequence wc) (text_of wcs) (0 ∷ rest)) (
      encode_loop-front encoder fuel (get_sequence wc ++ later) f.read f.not_end f.decoded
        f.not_empty
        (ap (encode_loop encoder fuel) f.behind
          ∙ encode_loop-text_of encoder fuel wcs rest h (omega arith)))

rounds_enough :
    (wcs : List ℕ) (rest : Bytes) → All IsPoint wcs → length wcs < length (text_of wcs ++ 0 ∷ rest)
rounds_enough wcs rest h =
    omega (arith, length-append (text_of wcs) (0 ∷ rest), length-text_of wcs h)

-- On a terminated text of code points `utf8_strlen` gives their number.
pub strlen-text_of :
    (wcs : List ℕ) (rest : Bytes)
    → All IsPoint wcs
    → strlen (text_of wcs ++ 0 ∷ rest) ≡ some (some (length wcs))
unfolding strlen
strlen-text_of wcs rest h =
    strlen_loop-text_of _ wcs rest 0 h (rounds_enough wcs rest h)
    ∙ ap (λ (n : ℕ). some (some n)) (omega arith)

-- On a terminated text of code points `utf8_encode` writes what the encoder makes of each, in order.
pub encode-text_of :
    (encoder : ℕ → ℕ) (wcs : List ℕ) (rest : Bytes)
    → All IsPoint wcs
    → encode encoder (text_of wcs ++ 0 ∷ rest) ≡ some (some (map (λ wc. u8 (encoder wc)) wcs))
unfolding encode
encode-text_of encoder wcs rest h =
    encode_loop-text_of encoder _ wcs rest h (rounds_enough wcs rest h)

-- The case folding of a text, two places for each code point.
unfoldable pub folded : List ℕ → List ℕ
folded [] = []
folded (u ∷ us) = (fold_case u).0 ∷ (fold_case u).1 ∷ folded us

-- What a sign says of two lists: they are equal, or at the first place where they differ the element of the one is below
-- that of the other.
pub data Compared : Sign → List ℕ → List ℕ → Type 0 where
  alike : {us : List ℕ} → Compared same us us
  below : {x y : ℕ} {us vs : List ℕ} → x < y → Compared less (x ∷ us) (y ∷ vs)
  above : {x y : ℕ} {us vs : List ℕ} → y < x → Compared greater (x ∷ us) (y ∷ vs)
  behind :
      {x y : ℕ} {us vs : List ℕ} {s : Sign}
      → x ≡ y
      → Compared s us vs
      → Compared s (x ∷ us) (y ∷ vs)
