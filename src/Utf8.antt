-- ===== src/Utf8.antt =====
-- player/src/pal/utf8.c: UTF-8 over texts of bytes. A `uint16_t` is a number below 2 ^ 16. A text is the
-- bytes from the pointer to the end of the buffer, and a read behind it is a fault, `none`.
pub mod Tables
pub mod Decode
pub mod Fold
pub mod Texts
pub mod Terminated
use lavender.Base.{
  ℕ, zero, suc, ◌+◌, ◌-◌, ◌%◌, Bool, true, false, not, ◌&&◌, ◌||◌, Bytes, List, [], ◌∷◌,
}
use lavender.Base.{Option, none, some, if◌then◌else◌, ltb, leb, ◌==◌, bit_and, bit_or, ◌<<<◌, ◌>>>◌}
use lavender.Base.{u8, u16, drop, length, get_elem?, map}
use mathlib.Core.Option
use Tables.{folding_single, folding_double}

infixl 5 ◌>>=◌
abbrev pub ◌>>=◌ {ℓ κ} : {A : Type ℓ} {B : Type κ} → Option A → (A → Option B) → Option B
none >>= k = none
some a >>= k = k a

-- What `utf8_get_codepoint` returns: a code point with the length of its sequence, or, with `errno` set
-- to `EILSEQ`, the code point 0 with the length 0.
pub data Decoded : Type 0 where
  point : ℕ → ℕ → Decoded
  illegal : Decoded

abbrev pub codepoint_of : Decoded → ℕ
codepoint_of (point cp n) = cp
codepoint_of illegal = 0

abbrev pub length_of : Decoded → ℕ
length_of (point cp n) = n
length_of illegal = 0

-- The loop over the continuation bytes: at index `i` with `left` of them to go.
unfoldable pub continue_at : Bytes → ℕ → ℕ → ℕ → Option Decoded
continue_at str zero i cp = some (point cp i)
continue_at str (suc left) i cp = do
  b ← get_elem? str i
  let rest = continue_at str left (i + 1) (u16 (bit_or (cp <<< 6) (bit_and b 0x3F)))
  if not (bit_and b 0xC0 == 0x80) then some illegal else rest

-- From the leading byte: the number of continuation bytes, and the code point's first bits.
unfoldable pub leading : ℕ → Option (ℕ × ℕ)
leading b =
    let cp = bit_and b 0x1F in
    if bit_and b 0x20 == 0
    then some (1, cp)
    else if bit_and b 0x10 == 0
    then some (2, bit_and cp 0x0F)
    else if bit_and b 0x08 == 0
    then some (3, bit_and (bit_and cp 0x0F) 0x07)
    else none

unfoldable pub get_codepoint : Bytes → Option Decoded
unfolding leading
get_codepoint str = do
  b ← get_elem? str 0
  let lead = bit_and b 0xC0
  if lead == 0x80
      then some illegal
      else if not (lead == 0xC0)
      then some (point b 1)
      else elim (leading b) [ none ↦ some illegal | some (n, cp) ↦ continue_at str n 1 cp ]

-- The bytes that `utf8_get_sequence` stores; it returns their number.
unfoldable pub get_sequence : ℕ → Bytes
get_sequence wc =
    if ltb wc 0x0080
    then u8 wc ∷ []
    else if ltb wc 0x0800
    then u8 (bit_or 0xC0 (wc >>> 6)) ∷ u8 (bit_or 0x80 (bit_and wc 0x3F)) ∷ []
    else u8 (bit_or 0xE0 (wc >>> 12))
      ∷ u8 (bit_or 0x80 (bit_and (wc >>> 6) 0x3F))
      ∷ u8 (bit_or 0x80 (bit_and wc 0x3F))
      ∷ []

-- The loop of `utf8_strlen`; `none` inside stands for the result -1. Each round moves the pointer by one
-- byte at least, so the bytes of the buffer are rounds enough.
unfoldable pub strlen_loop : ℕ → Bytes → ℕ → Option (Option ℕ)
strlen_loop zero str i = none
strlen_loop (suc fuel) str i = do
  b ← get_elem? str 0
  elim (b == 0) [
    | true ↦ some (some i)
    | false ↦ do
      d ← get_codepoint str
      elim (length_of d == 0) [
        | true ↦ some none
        | false ↦ strlen_loop fuel (drop (length_of d) str) (i + 1)
      ]
  ]

unfoldable pub strlen : Bytes → Option (Option ℕ)
strlen str = strlen_loop (length str) str 0

-- The loop of `utf8_encode`: the bytes written before the terminator, from here on; the result is their
-- number, or -1, `none`.
unfoldable pub encode_loop : (ℕ → ℕ) → ℕ → Bytes → Option (Option Bytes)
encode_loop encoder zero src = none
encode_loop encoder (suc fuel) src = do
  b ← get_elem? src 0
  elim (b == 0) [
    | true ↦ some (some [])
    | false ↦ do
      d ← get_codepoint src
      elim (length_of d == 0) [
        | true ↦ some none
        | false ↦ do
          dst ← encode_loop encoder fuel (drop (length_of d) src)
          some (Option.map (λ bytes. u8 (encoder (codepoint_of d)) ∷ bytes) dst)
      ]
  ]

unfoldable pub encode : (ℕ → ℕ) → Bytes → Option (Option Bytes)
encode encoder src = encode_loop encoder (length src) src

-- The searches through the folding tables.
unfoldable pub find_single : ℕ → List (ℕ × ℕ) → Option ℕ
find_single cp [] = none
find_single cp ((from, to) ∷ mapping) = if cp == from then some to else find_single cp mapping

unfoldable pub find_double : ℕ → List (ℕ × ℕ × ℕ) → Option (ℕ × ℕ)
find_double cp [] = none
find_double cp ((from, to, next) ∷ mapping) =
    if cp == from then some (to, next) else find_double cp mapping

abbrev between : ℕ → ℕ → ℕ → Bool
between lo hi cp = leb lo cp && leb cp hi

-- The last part of `_fold_case`.
unfoldable pub fold_by_table : ℕ → ℕ × ℕ
fold_by_table cp = elim (find_single cp folding_single) [
  | some to ↦ (to, 0)
  | none ↦ elim (find_double cp folding_double) [ some pair ↦ pair | none ↦ (cp, 0) ]
]

-- The two code points that `_fold_case` leaves in its buffer.
unfoldable pub fold_case : ℕ → ℕ × ℕ
fold_case cp =
    if ltb cp 0x0041 || between 0x005B 0x00BF cp
    then (cp, 0)
    else if between 0x0041 0x005A cp || between 0x00C0 0x00DE cp
    then (u16 (cp + 32), 0)
    else if between 0x0100 0x012F cp
        || between 0x0132 0x0137 cp
        || between 0x014A 0x0177 cp
        || between 0x01DE 0x01EF cp
        || between 0x01F8 0x021F cp
        || between 0x0222 0x0233 cp
        || between 0x0246 0x024F cp
    then (bit_or cp 1, 0)
    else if between 0x0139 0x0148 cp || between 0x01CD 0x01DC cp
    then (u16 (cp + cp % 2), 0)
    else fold_by_table cp

-- The results of `utf8_strncasecmp`: -1, 0 and 1.
pub data Sign : Type 0 where
  less same greater : Sign

-- One round: `none` where the loop goes on.
unfoldable pub compare_folds : ℕ × ℕ → ℕ × ℕ → Option Sign
compare_folds (a, a') (b, b') =
    let x = if a == b then a' else a in
    let y = if a == b then b' else b in
    if ltb x y then some less else if ltb y x then some greater else none

unfoldable pub strncasecmp : Bytes → Bytes → ℕ → Option Sign
strncasecmp str1 str2 zero = some same
strncasecmp str1 str2 (suc length) = do
  d1 ← get_codepoint str1
  d2 ← get_codepoint str2
  let rest = strncasecmp (drop (length_of d1) str1) (drop (length_of d2) str2) length
  elim (compare_folds (fold_case (codepoint_of d1)) (fold_case (codepoint_of d2))) [
    | some s ↦ some s
    | none ↦ rest
  ]
