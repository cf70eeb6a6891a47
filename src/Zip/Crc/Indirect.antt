-- ===== src/Zip/Crc/Indirect.antt =====
-- `zip_calculate_crc_indirect` against `zip_calculate_crc`.
use lavender.Base.{ℕ, suc, ◌+◌, ◌-◌, ◌^◌, ◌<◌, [], ◌∷◌, Bytes, length, get_or, some}
use lavender.Base.{Option, ◌≡◌, refl, ap, ◌∙◌, arith}
use lavender.Zip.Crc.{crc_byte, crc_loop, calculate_crc, indirect_loop, calculate_crc_indirect}

-- From a state where `Inv` holds the callback gives each byte of `bytes`, and `Inv` holds again.
abbrev pub Gives {ℓ} : {S : Type 0} → (S → Type ℓ) → (S → ℕ → Option (ℕ × S)) → Bytes → Type ℓ
Gives {S} Inv stream bytes =
    (s : S) (j : ℕ)
    → Inv s
    → j < length bytes
    → (s' : S) × (stream s j ≡ some (get_or bytes j 0, s')) × Inv s'

module _ {ℓ} {S : Type 0} (Inv : S → Type ℓ) (stream : S → ℕ → Option (ℕ × S)) where
  indirect_loop-crc_loop :
      (bytes : Bytes) (i crc : ℕ) (s : S)
      → Inv s
      → ((t : S) (j : ℕ)
          → Inv t
          → j < length bytes
          → (s' : S) × (stream t (i + j) ≡ some (get_or bytes j 0, s')) × Inv s')
      → (s' : S) × (indirect_loop stream (length bytes) i crc s ≡ some (crc_loop crc bytes, s'))
        × Inv s'
  unfolding indirect_loop crc_loop
  indirect_loop-crc_loop [] i crc s inv h = (s, refl, inv)
  indirect_loop-crc_loop (b ∷ bytes) i crc s inv h =
      let (s₁, given, inv₁) = h s 0 inv (omega arith) in
      let here : stream s i ≡ some (b, s₁) = ap (stream s) (omega arith) ∙ given in
      let shifted : (t : S) (j : ℕ)
          → Inv t
          → j < length bytes
          → (s' : S) × (stream t (i + 1 + j) ≡ some (get_or bytes j 0, s')) × Inv s' =
        λ t j q p.
          (let (s', g, q') = h t (suc j) q (omega arith) in
            (s', ap (stream t) (omega arith) ∙ g, q')) in
      let (s₂, rest, inv₂) =
        indirect_loop-crc_loop bytes (i + 1) (crc_byte crc b) s₁ inv₁ shifted in
      (s₂, rw (here, indirect_loop) rest, inv₂)

  -- Where the callback gives the bytes of `bytes`, `zip_calculate_crc_indirect` finishes without a
  -- fault and gives what `zip_calculate_crc` gives over these bytes.
  pub calculate_crc_indirect-calculate_crc :
      (bytes : Bytes) (s : S)
      → Inv s
      → Gives Inv stream bytes
      → (s' : S) × (calculate_crc_indirect stream s (length bytes) ≡ some (calculate_crc bytes, s'))
        × Inv s'
  unfolding calculate_crc_indirect calculate_crc
  calculate_crc_indirect-calculate_crc bytes s inv h =
      let shifted : (t : S) (j : ℕ)
          → Inv t
          → j < length bytes
          → (s' : S) × (stream t (0 + j) ≡ some (get_or bytes j 0, s')) × Inv s' =
        λ t j q p. (let (s', g, q') = h t j q p in (s', ap (stream t) (omega arith) ∙ g, q')) in
      let (s', run, inv') = indirect_loop-crc_loop bytes 0 (2 ^ 32 - 1) s inv shifted in
      (s', rw (run, calculate_crc_indirect) refl, inv')
