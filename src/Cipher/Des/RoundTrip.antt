-- ===== src/Cipher/Des/RoundTrip.antt =====
-- Decryption undoes encryption, for every key schedule.
use lavender.Base.{ℕ, Bool, ◌+◌, ◌*◌, ◌/◌, ◌%◌, ◌^◌, ◌<◌, ◌≡◌, refl, ap, sym, ◌∙◌, true, false}
use lavender.Base.{List, arith}
use mathlib.Core.Path.{subst}
use lavender.Bits.Fields.{bit_or-add, bit_and_mask}
use lavender.Cipher.Des.Tables.{ip, fp}
use lavender.Cipher.Des.{permute, halves_of, join_swapped, des}
use lavender.Cipher.Des.Permutation.{permute-permute, permute-lt, IsTable}
use lavender.Cipher.Des.Feistel.{
  rounds, swap, reversed, schedule, AreWords, des_loop-encrypt, des_loop-decrypt, rounds-reversed,
  rounds-AreWords,
}

ip-IsTable : IsTable 64 ip
ip-IsTable = omega arith

fp-IsTable : IsTable 64 fp
fp-IsTable = omega arith

pub fp-ip : (m : ℕ) → m < 2 ^ 64 → permute fp (permute ip m 64) 64 ≡ m
fp-ip m h = permute-permute fp ip m 64 refl fp-IsTable refl h

pub ip-fp : (m : ℕ) → m < 2 ^ 64 → permute ip (permute fp m 64) 64 ≡ m
ip-fp m h = permute-permute ip fp m 64 refl ip-IsTable refl h

join_sum : (s : ℕ × ℕ) → AreWords s → join_swapped s ≡ s.1 * 2 ^ 32 + s.0
join_sum (l, r) h =
    let whole : r * 2 ^ 32 % 2 ^ 64 ≡ r * 2 ^ 32 = omega arith in rw whole (bit_or-add 32 r l h.0)

halves_sum : (m : ℕ) → m < 2 ^ 64 → halves_of m ≡ (m / 2 ^ 32, m % 2 ^ 32)
halves_sum m h = λ i. (left i, right i)
  where
    left : (halves_of m).0 ≡ m / 2 ^ 32
    left = bit_and_mask 32 (m / 2 ^ 32 % 2 ^ 32) ∙ omega arith

    right : (halves_of m).1 ≡ m % 2 ^ 32
    right = ap (λ (t : ℕ). t % 2 ^ 32) (bit_and_mask 32 m) ∙ omega arith

halves-join : (s : ℕ × ℕ) → AreWords s → halves_of (join_swapped s) ≡ swap s
halves-join (l, r) h =
    let joined : join_swapped (l, r) ≡ r * 2 ^ 32 + l = join_sum (l, r) h in
    ap halves_of joined ∙ halves_sum (r * 2 ^ 32 + l) (omega arith) ∙ (λ i. (high i, low i))
  where
    high : (r * 2 ^ 32 + l) / 2 ^ 32 ≡ r
    high = omega arith

    low : (r * 2 ^ 32 + l) % 2 ^ 32 ≡ l
    low = omega arith

join-halves : (m : ℕ) → m < 2 ^ 64 → join_swapped (swap (halves_of m)) ≡ m
join-halves m h =
    ap (λ (s : ℕ × ℕ). join_swapped (swap s)) (halves_sum m h)
    ∙ join_sum (m % 2 ^ 32, m / 2 ^ 32) (omega arith)
    ∙ omega arith

halves-AreWords : (m : ℕ) → m < 2 ^ 64 → AreWords (halves_of m)
halves-AreWords m h = subst AreWords (sym (halves_sum m h)) (omega arith)

join-lt : (s : ℕ × ℕ) → AreWords s → join_swapped s < 2 ^ 64
join-lt s h = rw (join_sum s h) (omega arith)

pub des-lt : (subkeys : List ℕ) (m : ℕ) (b : Bool) → des subkeys m b < 2 ^ 64
unfolding des
des-lt subkeys m b = permute-lt fp _ 64

-- Two orders of the subkeys such that the rounds of the second undo those of the first.
abbrev Undoes : List ℕ → List ℕ → Type 0
Undoes back there = (s : ℕ × ℕ) → rounds back (swap (rounds there s)) ≡ swap s

-- The block cipher with its rounds' subkeys in a given order.
abbrev with_order : List ℕ → ℕ → ℕ
with_order ks m = permute fp (join_swapped (rounds ks (halves_of (permute ip m 64)))) 64

module _ (there back : List ℕ) (undo : Undoes back there) where
  rounds_round_trip :
      (x : ℕ)
      → x < 2 ^ 64
      → join_swapped (rounds back (halves_of (join_swapped (rounds there (halves_of x))))) ≡ x
  rounds_round_trip x wide =
      let words = rounds-AreWords there (halves_of x) (halves-AreWords x wide) in
      ap (λ (s : ℕ × ℕ). join_swapped (rounds back s))
        (halves-join (rounds there (halves_of x)) words)
      ∙ ap join_swapped (undo (halves_of x))
      ∙ join-halves x wide

  order_round_trip : (m : ℕ) → m < 2 ^ 64 → with_order back (with_order there m) ≡ m
  order_round_trip m h =
      let x = permute ip m 64 in
      let wide : x < 2 ^ 64 = permute-lt ip m 64 in
      let words = rounds-AreWords there (halves_of x) (halves-AreWords x wide) in
      ap (λ (y : ℕ). permute fp (join_swapped (rounds back (halves_of y))) 64)
        (ip-fp (join_swapped (rounds there (halves_of x)))
          (join-lt (rounds there (halves_of x)) words))
      ∙ ap (λ (y : ℕ). permute fp y 64) (rounds_round_trip x wide)
      ∙ fp-ip m h

des-with_order_encrypt :
    (subkeys : List ℕ) (m : ℕ) → des subkeys m true ≡ with_order (schedule subkeys) m
unfolding des
des-with_order_encrypt subkeys m =
    ap (λ (s : ℕ × ℕ). permute fp (join_swapped s) 64)
      (des_loop-encrypt subkeys (halves_of (permute ip m 64)))

des-with_order_decrypt :
    (subkeys : List ℕ) (m : ℕ) → des subkeys m false ≡ with_order (reversed (schedule subkeys)) m
unfolding des
des-with_order_decrypt subkeys m =
    ap (λ (s : ℕ × ℕ). permute fp (join_swapped s) 64)
      (des_loop-decrypt subkeys (halves_of (permute ip m 64)))

-- `_des` with `encrypt` unset undoes `_des` with it set, and the other way round, for every block and
-- whatever the subkeys.
pub des_round_trip :
    (subkeys : List ℕ) (m : ℕ)
    → m < 2 ^ 64
    → (des subkeys (des subkeys m true) false ≡ m) × (des subkeys (des subkeys m false) true ≡ m)
des_round_trip subkeys m h = (
  des-with_order_decrypt subkeys (des subkeys m true)
      ∙ ap (with_order (reversed (schedule subkeys))) (des-with_order_encrypt subkeys m)
      ∙ order_round_trip (schedule subkeys) (reversed (schedule subkeys))
          (rounds-reversed (schedule subkeys)) m h,
  des-with_order_encrypt subkeys (des subkeys m false)
      ∙ ap (with_order (schedule subkeys)) (des-with_order_decrypt subkeys m)
      ∙ order_round_trip (reversed (schedule subkeys)) (schedule subkeys)
          (rounds-reversed (reversed (schedule subkeys))) m h,
)
