-- ===== src/Enc/Content/Steps.antt =====
-- The steps of `_decrypt_content` that concern the stream and the size behind the content.
use lavender.Base.{ℕ, zero, suc, ◌+◌, ◌-◌, ◌^◌, ◌≤◌, ◌<◌, ◌≡◌, refl, ap, ◌∙◌, true, false}
use lavender.Base.{Bytes, List, [], ◌∷◌, ◌++◌, some, arith, ltb, leb}
use lavender.Base.{
  take-append_le, take-take, length-drop, length, take, drop, get_elem?, length-append,
  length-take_le, u32,
}
use lavender.Cipher.Des.Stream.{from_bytes}
use lavender.Cipher.InPlace.{store}
use lavender.Enc.Content.{le32, write_pt_size, read_pt_size}

module _ {ℓ} {A : Type ℓ} where
  get_elem?-append_right :
      (xs ys : List A) (n i : ℕ) → n ≡ length xs + i → get_elem? (xs ++ ys) n ≡ get_elem? ys i
  get_elem?-append_right [] ys n i h = let e : n ≡ i = omega arith in rw e refl
  get_elem?-append_right (x ∷ xs) ys zero i h = absurd (omega arith)
  get_elem?-append_right (x ∷ xs) ys (suc n) i h = get_elem?-append_right xs ys n i (omega arith)

-- The size that is stored behind the content is read back, and the content before it stays.
module _ (content : Bytes) (size value : ℕ) (whole : length content ≡ size)
    (room : value + 8 ≤ size) (fits : value < 2 ^ 32) where
  abbrev pub stored : Bytes
  stored = take (size - 4) content ++ (le32 (u32 value) ++ drop (size - 4 + 4) content)

  pub write_pt_size-stored : write_pt_size content size value ≡ some stored
  unfolding write_pt_size store
  write_pt_size-stored =
      let long : ltb size 4 ≡ false = ground arith in
      let inside : leb (size - 4 + 4) (length content) ≡ true = ground arith in
      rw (long, inside) refl

  prefix_length : length (take (size - 4) content) ≡ size - 4
  prefix_length = length-take_le (size - 4) content (omega arith)

  pub read_pt_size-stored : read_pt_size stored size ≡ some value
  unfolding read_pt_size
  read_pt_size-stored =
      let long : ltb size 4 ≡ false = ground arith in
      let at : (i : ℕ)
          → i < 4
          → get_elem? stored (size - (4 - i))
            ≡ get_elem? (le32 (u32 value) ++ drop (size - 4 + 4) content) i =
        λ i h.
          get_elem?-append_right (take (size - 4) content)
            (le32 (u32 value) ++ drop (size - 4 + 4) content) (size - (4 - i)) i
            (omega (arith, prefix_length)) in
      let a = at 0 (omega arith) in
      let b = at 1 (omega arith) in
      let c = at 2 (omega arith) in
      let d = at 3 (omega arith) in rw (long, a, b, c, d) (ap some (omega arith))

  pub take-stored : take value stored ≡ take value content
  take-stored =
      take-append_le value (take (size - 4) content)
        (le32 (u32 value) ++ drop (size - 4 + 4) content) (omega (arith, prefix_length))
      ∙ take-take value (size - 4) content (omega arith)

  pub length-stored : length stored ≡ size
  length-stored = omega (
    arith,
    prefix_length,
    length-append (take (size - 4) content) (le32 (u32 value) ++ drop (size - 4 + 4) content),
    length-drop (size - 4 + 4) content,
  )

pub from_bytes-some : (bytes : Bytes) → 8 ≤ length bytes → (n : ℕ) × (from_bytes bytes ≡ some n)
unfolding from_bytes
from_bytes-some (a ∷ b ∷ c ∷ d ∷ e ∷ f ∷ g ∷ h ∷ rest) l = (_, refl)
from_bytes-some _ l = absurd (omega arith)
