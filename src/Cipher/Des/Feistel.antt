-- ===== src/Cipher/Des/Feistel.antt =====
-- The sixteen rounds of `_des`: with the subkeys in the opposite order they run backwards.
use lavender.Base.{ℕ, ◌^◌, ◌<◌, ◌≡◌, refl, ap, ◌∙◌, true, false, arith}
use lavender.Base.{List, [], ◌∷◌, ◌++◌, get_or, bit_xor}
use lavender.Bits.Xor.{bit_xor_cancel, bit_xor-lt}
use lavender.Cipher.Des.{f, des_loop}

-- A round with its subkey given.
abbrev pub feistel : ℕ → ℕ × ℕ → ℕ × ℕ
feistel k (l, r) = (r, bit_xor l (f k r))

pub rounds : List ℕ → ℕ × ℕ → ℕ × ℕ
rounds [] s = s
rounds (k ∷ ks) s = rounds ks (feistel k s)

abbrev pub swap : ℕ × ℕ → ℕ × ℕ
swap (l, r) = (r, l)

abbrev pub reversed : List ℕ → List ℕ
reversed [] = []
reversed (k ∷ ks) = reversed ks ++ k ∷ []

abbrev pub schedule : List ℕ → List ℕ
schedule subkeys =
    let k : ℕ → ℕ = λ i. get_or subkeys i 0 in
    k 0
    ∷ k 1
    ∷ k 2
    ∷ k 3
    ∷ k 4
    ∷ k 5
    ∷ k 6
    ∷ k 7
    ∷ k 8
    ∷ k 9
    ∷ k 10
    ∷ k 11
    ∷ k 12
    ∷ k 13
    ∷ k 14
    ∷ k 15
    ∷ []

pub des_loop-encrypt :
    (subkeys : List ℕ) (s : ℕ × ℕ) → des_loop subkeys true 16 0 s ≡ rounds (schedule subkeys) s
unfolding des_loop rounds
des_loop-encrypt subkeys s = refl

pub des_loop-decrypt :
    (subkeys : List ℕ) (s : ℕ × ℕ)
    → des_loop subkeys false 16 0 s ≡ rounds (reversed (schedule subkeys)) s
unfolding des_loop rounds
des_loop-decrypt subkeys s = refl

rounds-append : (xs ys : List ℕ) (s : ℕ × ℕ) → rounds (xs ++ ys) s ≡ rounds ys (rounds xs s)
unfolding rounds
rounds-append [] ys s = refl
rounds-append (x ∷ xs) ys s = rounds-append xs ys (feistel x s)

-- Whatever the round function computes, a round is undone by the same round on swapped halves.
feistel-swap : (k : ℕ) (s : ℕ × ℕ) → feistel k (swap (feistel k s)) ≡ swap s
feistel-swap k (l, r) = λ i. (r, bit_xor_cancel l (f k r) i)

pub rounds-reversed : (ks : List ℕ) (s : ℕ × ℕ) → rounds (reversed ks) (swap (rounds ks s)) ≡ swap s
unfolding rounds
rounds-reversed [] s = refl
rounds-reversed (k ∷ ks) s =
    rounds-append (reversed ks) (k ∷ []) (swap (rounds ks (feistel k s)))
    ∙ ap (feistel k) (rounds-reversed ks (feistel k s))
    ∙ feistel-swap k s

abbrev pub AreWords : ℕ × ℕ → Type 0
AreWords s = (s.0 < 2 ^ 32) × (s.1 < 2 ^ 32)

pub rounds-AreWords : (ks : List ℕ) (s : ℕ × ℕ) → AreWords s → AreWords (rounds ks s)
unfolding rounds
rounds-AreWords [] s h = h
rounds-AreWords (k ∷ ks) (l, r) h =
    rounds-AreWords ks (r, bit_xor l (f k r))
      (h.1, bit_xor-lt 32 l (f k r) h.0 (unfold f in omega arith))
