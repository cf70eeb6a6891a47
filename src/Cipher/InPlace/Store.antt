-- ===== src/Cipher/InPlace/Store.antt =====
-- Bytes stored into a buffer.
use lavender.Base.{suc, ◌+◌, ◌≤◌, ◌≡◌, refl, ap, Bytes, [], ◌∷◌, ◌++◌, ℕ, arith, true}
use lavender.Base.{some, leb, take, drop, length, length-append}
use lavender.Cipher.InPlace.{store}

take-append : (xs ys : Bytes) → take (length xs) (xs ++ ys) ≡ xs
take-append [] ys = refl
take-append (x ∷ xs) ys = ap (λ (t : Bytes). x ∷ t) (take-append xs ys)

pub drop-append_more : (n : ℕ) (xs ys : Bytes) → drop (length xs + n) (xs ++ ys) ≡ drop n ys
drop-append_more n [] ys = let e : 0 + n ≡ n = omega arith in rw e refl
drop-append_more n (x ∷ xs) ys =
    let e : suc (length xs) + n ≡ suc (length xs + n) = omega arith in
    rw e (drop-append_more n xs ys)

-- Bytes stored behind a prefix.
pub store-append :
    (pre bytes rest : Bytes)
    → length bytes ≤ length rest
    → store (pre ++ rest) (length pre) bytes ≡ some (pre ++ (bytes ++ drop (length bytes) rest))
unfolding store
store-append pre bytes rest fits =
    let room : leb (length pre + length bytes) (length (pre ++ rest)) ≡ true =
      ground (arith, length-append pre rest) in
    rw (room, take-append pre rest, drop-append_more (length bytes) pre rest) refl
