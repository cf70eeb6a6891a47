-- ===== src/Snd/Seq/Splice.antt =====
-- The elements of a buffer that bytes are stored into, as player/src/snd/seq.c fills its buffer.
use lavender.Base.{ℕ, zero, suc, ◌+◌, ◌-◌, ◌≤◌, ◌<◌, ◌≡◌, refl, ap, ◌∙◌, arith, ◌⊎◌, inl, inr, true}
use lavender.Base.{
  [], ◌∷◌, ◌++◌, some, Bytes, leb, get_elem?, length, take, drop, length-append, length-drop,
  length-take_le,
}
use lavender.Cipher.InPlace.{store}
use lavender.Snd.Seq.{read_asset}

get_elem?-append : (xs ys : Bytes) (k : ℕ) → k < length xs → get_elem? (xs ++ ys) k ≡ get_elem? xs k
get_elem?-append [] ys k h = absurd (omega arith)
get_elem?-append (x ∷ xs) ys zero h = refl
get_elem?-append (x ∷ xs) ys (suc k) h = get_elem?-append xs ys k (omega arith)

get_elem?-append_behind :
    (xs ys : Bytes) (k : ℕ) → length xs ≤ k → get_elem? (xs ++ ys) k ≡ get_elem? ys (k - length xs)
get_elem?-append_behind [] ys k h = let e : k - 0 ≡ k = omega arith in rw e refl
get_elem?-append_behind (x ∷ xs) ys zero h = absurd (omega arith)
get_elem?-append_behind (x ∷ xs) ys (suc k) h =
    let e : suc k - suc (length xs) ≡ k - length xs = omega arith in
    rw e (get_elem?-append_behind xs ys k (omega arith))

get_elem?-take : (n k : ℕ) (xs : Bytes) → k < n → get_elem? (take n xs) k ≡ get_elem? xs k
get_elem?-take zero k xs h = absurd (omega arith)
get_elem?-take (suc n) k [] h = refl
get_elem?-take (suc n) zero (x ∷ xs) h = refl
get_elem?-take (suc n) (suc k) (x ∷ xs) h = get_elem?-take n k xs (omega arith)

get_elem?-drop : (n k : ℕ) (xs : Bytes) → get_elem? (drop n xs) k ≡ get_elem? xs (n + k)
get_elem?-drop zero k xs = let e : 0 + k ≡ k = omega arith in rw e refl
get_elem?-drop (suc n) k [] = refl
get_elem?-drop (suc n) k (x ∷ xs) =
    let e : suc n + k ≡ suc (n + k) = omega arith in rw e (get_elem?-drop n k xs)

length-take_lt : (n k : ℕ) (xs : Bytes) → k < n → k < length xs → k < length (take n xs)
length-take_lt zero k xs h inside = absurd (omega arith)
length-take_lt (suc n) k [] h inside = absurd (omega arith)
length-take_lt (suc n) zero (x ∷ xs) h inside = omega arith
length-take_lt (suc n) (suc k) (x ∷ xs) h inside =
    let rest = length-take_lt n k xs (omega arith) (omega arith) in omega arith

length-take_most : (n : ℕ) (xs : Bytes) → length (take n xs) ≤ n
length-take_most zero xs = omega arith
length-take_most (suc n) [] = omega arith
length-take_most (suc n) (x ∷ xs) = let rest = length-take_most n xs in omega arith

-- What a file gives.
pub get_elem?-read_asset :
    (file : Bytes) (at size k : ℕ)
    → k < size
    → get_elem? (read_asset file at size) k ≡ get_elem? file (at + k)
get_elem?-read_asset file at size k h =
    get_elem?-take size k (drop at file) h ∙ get_elem?-drop at k file

pub length-read_asset :
    (file : Bytes) (at size k : ℕ)
    → k < size
    → at + k < length file
    → k < length (read_asset file at size)
length-read_asset file at size k h inside =
    length-take_lt size k (drop at file) h (let e = length-drop at file in omega arith)

pub length-read_asset_most : (file : Bytes) (at size : ℕ) → length (read_asset file at size) ≤ size
length-read_asset_most file at size = length-take_most size (drop at file)

-- A buffer with bytes stored at a place, where they fit.
abbrev pub splice : Bytes → ℕ → Bytes → Bytes
splice buffer at bytes = take at buffer ++ (bytes ++ drop (at + length bytes) buffer)

module _ (buffer : Bytes) (at : ℕ) (bytes : Bytes) (fits : at + length bytes ≤ length buffer) where
  pub store-splice : store buffer at bytes ≡ some (splice buffer at bytes)
  unfolding store
  store-splice =
      let room : leb (at + length bytes) (length buffer) ≡ true = ground arith in rw room refl

  front : length (take at buffer) ≡ at
  front = length-take_le at buffer (omega arith)

  pub length-splice : length (splice buffer at bytes) ≡ length buffer
  length-splice = omega (
    arith,
    front,
    length-append (take at buffer) (bytes ++ drop (at + length bytes) buffer),
    length-append bytes (drop (at + length bytes) buffer),
    length-drop (at + length bytes) buffer,
    fits,
  )

  pub get_elem?-splice :
      (k : ℕ)
      → at ≤ k
      → k < at + length bytes
      → get_elem? (splice buffer at bytes) k ≡ get_elem? bytes (k - at)
  get_elem?-splice k low high =
      let size = front in
      get_elem?-append_behind (take at buffer) (bytes ++ drop (at + length bytes) buffer) k
        (omega arith)
      ∙ get_elem?-append bytes (drop (at + length bytes) buffer) (k - length (take at buffer))
          (omega arith)
      ∙ ap (λ (n : ℕ). get_elem? bytes (k - n)) size

  pub get_elem?-splice_outside :
      (k : ℕ)
      → (k < at) ⊎ (at + length bytes ≤ k)
      → get_elem? (splice buffer at bytes) k ≡ get_elem? buffer k
  get_elem?-splice_outside k (inl low) =
      let size = front in
      get_elem?-append (take at buffer) (bytes ++ drop (at + length bytes) buffer) k (omega arith)
      ∙ get_elem?-take at k buffer low
  get_elem?-splice_outside k (inr high) =
      let size = front in
      let back : at + length bytes + (k - length (take at buffer) - length bytes) ≡ k =
        omega arith in
      get_elem?-append_behind (take at buffer) (bytes ++ drop (at + length bytes) buffer) k
        (omega arith)
      ∙ get_elem?-append_behind bytes (drop (at + length bytes) buffer)
          (k - length (take at buffer)) (omega arith)
      ∙ get_elem?-drop (at + length bytes) (k - length (take at buffer) - length bytes) buffer
      ∙ ap (get_elem? buffer) back

-- A list from a place inside it on.
pub drop-step :
    (k : ℕ) (xs : Bytes)
    → k < length xs
    → (c : ℕ) × (get_elem? xs k ≡ some c) × (drop k xs ≡ c ∷ drop (suc k) xs)
drop-step k [] h = absurd (omega arith)
drop-step zero (x ∷ xs) h = (x, refl, refl)
drop-step (suc k) (x ∷ xs) h = drop-step k xs (omega arith)
