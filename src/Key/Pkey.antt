-- ===== src/Key/Pkey.antt =====
-- The product keys of player/src/enc/keyfmt/pkey25.c. A buffer is the list of its bytes; a read
-- behind its last byte makes the result `none`.
pub mod Letters
pub mod Validated
pub mod Printed
use lavender.Base.{ℕ, zero, suc, ◌+◌, ◌*◌, ◌%◌, Bool, true, false, List, [], ◌∷◌, ◌++◌, map}
use lavender.Base.{Option, some, none, Bytes, codes, drop, get_elem?, get_or, u64, ◌==◌, ◌&&◌}
use lavender.Base.{bit_xor, bit_and, bit_or, ◌<<<◌, ◌>>>◌, ◌-◌}
use mathlib.Core.Option
use lavender.Cipher.Des.Expand.{expand56}

-- `PKEY25_ALPHABET`, `PKEY25_BASE`, `PKEY25_LENGTH` and the lengths of the two parts.
abbrev pub alphabet : Bytes
alphabet = codes "2346789BCDFGHJKMPQRTVWXY"

abbrev pub base : ℕ
base = 24

abbrev pub pkey_length : ℕ
pkey_length = 25

abbrev pub left_length : ℕ
left_length = 13

abbrev pub right_length : ℕ
right_length = 12

abbrev pub hyphen : ℕ
hyphen = 45

abbrev pub masks : List ℕ
masks = 0x00000000000000 ∷ 0x55555555555555 ∷ 0xAAAAAAAAAAAAAA ∷ 0xFFFFFFFFFFFFFF ∷ []

-- `_remove_hyphens`, with the number of bytes still to be written.
unfoldable pub remove_loop : ℕ → Bytes → Option Bytes
remove_loop zero src = some []
remove_loop (suc left) [] = none
remove_loop (suc left) (c ∷ src) = elim (hyphen == c) [
  | true ↦ remove_loop (suc left) src
  | false ↦ Option.map (λ (dst : Bytes). c ∷ dst) (remove_loop left src)
]

unfoldable pub remove_hyphens : Bytes → Option Bytes
remove_hyphens src = remove_loop pkey_length src

-- `strchr`, with the index in place of the pointer: the terminator is a part of the text.
unfoldable pub strchr : Bytes → ℕ → Option ℕ
strchr [] c = elim (c == 0) [ true ↦ some 0 | false ↦ none ]
strchr (a ∷ text) c = elim (a == c) [ true ↦ some 0 | false ↦ Option.map suc (strchr text c) ]

-- The loop of `_aatoull`, with the number of characters still to be read.
unfoldable pub aatoull_loop : ℕ → Bytes → Bytes → ℕ → ℕ → Option ℕ
aatoull_loop zero str letters radix ret = some ret
aatoull_loop (suc left) [] letters radix ret = none
aatoull_loop (suc left) (c ∷ str) letters radix ret = elim (strchr letters c) [
  | none ↦ some 0
  | some pos ↦ aatoull_loop left str letters radix (u64 (u64 (ret * radix) + pos))
]

unfoldable pub aatoull : Bytes → ℕ → Bytes → ℕ → Option ℕ
aatoull str length letters radix = aatoull_loop length str letters radix 0

-- The two numbers of a key, which the three decoders read alike.
unfoldable pub read_parts : Bytes → Option (ℕ × ℕ)
read_parts pkey = elim (aatoull pkey left_length alphabet base) [
  | none ↦ none
  | some left ↦
      Option.map (λ (right : ℕ). (left, right))
        (aatoull (drop left_length pkey) right_length alphabet base)
]

abbrev pub and_then {ℓ κ} : {A : Type ℓ} {B : Type κ} → Option A → (A → Option B) → Option B
and_then none f = none
and_then (some a) f = f a

unfoldable pub pkey25raw_decode : Bytes → Option (ℕ × ℕ)
pkey25raw_decode src = and_then (remove_hyphens src) read_parts

unfoldable pub pkey25xor12_decode : Bytes → Option Bytes
pkey25xor12_decode src =
    Option.map (λ ((udata, ekey) : ℕ × ℕ). expand56 (bit_xor ekey udata))
      (and_then (remove_hyphens src) read_parts)

-- The two keys that the parts stand for.
unfoldable pub unmask : ℕ × ℕ → Bytes
unmask (k1e, k2) =
    let x = get_or masks (bit_and (k1e >>> 57) 3) 0 in
    let k2' = bit_or k2 (bit_and (k1e >>> 1) (1 <<< 55)) in
    let k1e' = bit_and k1e ((1 <<< 56) - 1) in expand56 (bit_xor k1e' x) ++ expand56 (bit_xor k2' x)

unfoldable pub pkey25xor2b_decode : Bytes → Option Bytes
pkey25xor2b_decode src = Option.map unmask (and_then (remove_hyphens src) read_parts)

-- Whether `strchr` finds a character that is not the terminator.
unfoldable pub is_letter : ℕ → Bool
is_letter c = elim (0 == c) [
  | true ↦ false
  | false ↦ elim (strchr alphabet c) [ none ↦ false | some pos ↦ true ]
]

-- The loop of `__enc_pkey25_validate_format` at the index `i`, with the rounds left and the text
-- from `i` on.
unfoldable pub validate_loop : ℕ → ℕ → Bytes → Option Bool
validate_loop zero i [] = none
validate_loop zero i (c ∷ key) = some ((pkey_length + 4 == i) && (0 == c))
validate_loop (suc left) i [] = none
validate_loop (suc left) i (c ∷ key) = elim (5 == i % 6) [
  | true ↦ elim (hyphen == c) [ true ↦ validate_loop left (i + 1) key | false ↦ some false ]
  | false ↦ elim (is_letter c) [ true ↦ validate_loop left (i + 1) key | false ↦ some false ]
]

unfoldable pub pkey25_validate_format : Bytes → Option Bool
pkey25_validate_format key = validate_loop (pkey_length + 4) 0 key
