-- ===== src/Cipher/Des/Stream/Blocks.antt =====
-- Blocks and their bytes.
use lavender.Base.{ℕ, zero, suc, ◌*◌, ◌/◌, ◌%◌, ◌^◌, ◌<◌, ◌≡◌, refl, ap, sym, ◌∙◌}
use lavender.Base.{Bytes, List, [], ◌∷◌, ◌++◌, some, All, length, drop, get_or, arith, bit_and}
use lavender.Bits.Fields.{bit_and_mask}
use lavender.Cipher.Des.Stream.{from_bytes, to_bytes, cached_byte}

abbrev pub IsBlock : ℕ → Type 0
IsBlock n = n < 2 ^ 64

-- The bytes of a sequence of blocks.
unfoldable pub bytes_of : List ℕ → Bytes
bytes_of [] = []
bytes_of (n ∷ blocks) = to_bytes n ++ bytes_of blocks

-- A block that was stored is loaded back.
pub from_bytes-to_bytes :
    (n : ℕ) (rest : Bytes) → n < 2 ^ 64 → from_bytes (to_bytes n ++ rest) ≡ some n
unfolding from_bytes to_bytes
from_bytes-to_bytes n rest h = ap some (omega arith)

pub drop-to_bytes : (n : ℕ) (rest : Bytes) → drop 8 (to_bytes n ++ rest) ≡ rest
unfolding to_bytes
drop-to_bytes n rest = refl

drop_eight : (k : ℕ) (bytes : Bytes) → drop (8 * suc k) bytes ≡ drop (8 * k) (drop 8 bytes)
drop_eight k bytes =
    let e : 8 * suc k ≡ suc (suc (suc (suc (suc (suc (suc (suc (8 * k)))))))) = omega arith in
    rw e (eight bytes)
  where
    nil : (m : ℕ) → drop {A = ℕ} m [] ≡ []
    nil zero = refl
    nil (suc m) = refl

    eight :
        (xs : Bytes)
        → drop (suc (suc (suc (suc (suc (suc (suc (suc (8 * k))))))))) xs ≡ drop (8 * k) (drop 8 xs)
    eight [] = sym (nil (8 * k))
    eight (_ ∷ []) = sym (nil (8 * k))
    eight (_ ∷ _ ∷ []) = sym (nil (8 * k))
    eight (_ ∷ _ ∷ _ ∷ []) = sym (nil (8 * k))
    eight (_ ∷ _ ∷ _ ∷ _ ∷ []) = sym (nil (8 * k))
    eight (_ ∷ _ ∷ _ ∷ _ ∷ _ ∷ []) = sym (nil (8 * k))
    eight (_ ∷ _ ∷ _ ∷ _ ∷ _ ∷ _ ∷ []) = sym (nil (8 * k))
    eight (_ ∷ _ ∷ _ ∷ _ ∷ _ ∷ _ ∷ _ ∷ []) = sym (nil (8 * k))
    eight (_ ∷ _ ∷ _ ∷ _ ∷ _ ∷ _ ∷ _ ∷ _ ∷ xs) = refl

-- Block `k` of the sequence, loaded from its place.
pub from_bytes-bytes_of :
    (blocks : List ℕ) (k : ℕ)
    → All IsBlock blocks
    → k < length blocks
    → from_bytes (drop (8 * k) (bytes_of blocks)) ≡ some (get_or blocks k 0)
unfolding bytes_of from_bytes
from_bytes-bytes_of [] k h lt = absurd (omega arith)
from_bytes-bytes_of (n ∷ blocks) zero h lt =
    let e : 8 * 0 ≡ 0 = omega arith in rw e (from_bytes-to_bytes n (bytes_of blocks) h.0)
from_bytes-bytes_of (n ∷ blocks) (suc k) h lt =
    rw (drop_eight k (to_bytes n ++ bytes_of blocks), drop-to_bytes n (bytes_of blocks))
      (from_bytes-bytes_of blocks k h.1 (omega arith))

pub length-bytes_of : (blocks : List ℕ) → length (bytes_of blocks) ≡ 8 * length blocks
unfolding bytes_of to_bytes
length-bytes_of [] = omega arith
length-bytes_of (n ∷ blocks) = omega (arith, length-bytes_of blocks)

ends_alike : (j : ℕ) → (suc (suc (suc (suc (suc (suc (suc (suc j)))))))) % 2 ^ 3 ≡ j % 2 ^ 3
ends_alike j = omega arith

-- Byte `i` of the sequence, as `des_at` picks it from the block that holds it.
pub cached_byte-bytes_of :
    (blocks : List ℕ) (i : ℕ)
    → i < 8 * length blocks
    → cached_byte (get_or blocks (i / 8) 0) i ≡ get_or (bytes_of blocks) i 0
unfolding bytes_of to_bytes
cached_byte-bytes_of [] i h = absurd (omega arith)
cached_byte-bytes_of (n ∷ blocks) zero h = omega arith
cached_byte-bytes_of (n ∷ blocks) (suc zero) h = omega arith
cached_byte-bytes_of (n ∷ blocks) (suc (suc zero)) h = omega arith
cached_byte-bytes_of (n ∷ blocks) (suc (suc (suc zero))) h = omega arith
cached_byte-bytes_of (n ∷ blocks) (suc (suc (suc (suc zero)))) h = omega arith
cached_byte-bytes_of (n ∷ blocks) (suc (suc (suc (suc (suc zero))))) h = omega arith
cached_byte-bytes_of (n ∷ blocks) (suc (suc (suc (suc (suc (suc zero)))))) h = omega arith
cached_byte-bytes_of (n ∷ blocks) (suc (suc (suc (suc (suc (suc (suc zero))))))) h = omega arith
cached_byte-bytes_of (n ∷ blocks) (suc (suc (suc (suc (suc (suc (suc (suc j)))))))) h =
    let block : (suc (suc (suc (suc (suc (suc (suc (suc j)))))))) / 8 ≡ suc (j / 8) = omega arith in
    let place : bit_and (suc (suc (suc (suc (suc (suc (suc (suc j)))))))) 7 ≡ bit_and j 7 =
      bit_and_mask 3 (suc (suc (suc (suc (suc (suc (suc (suc j))))))))
      ∙ ends_alike j
      ∙ sym (bit_and_mask 3 j) in
    rw (block, place) (cached_byte-bytes_of blocks j (omega arith))
