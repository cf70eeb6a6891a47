-- ===== src/Enc/Caller/Laws.antt =====
-- The key that a script gives in hexadecimal digits.
use mathlib.Core.List.{append_assoc}
use lavender.Base.{ℕ, ◌+◌, ◌*◌, ◌/◌, ◌%◌, ◌^◌, ◌<◌, ◌≡◌, refl, ap, sym, ◌∙◌, false, arith}
use lavender.Base.{Bytes, [], ◌∷◌, ◌++◌, some, All, length, length-append, drop, ◌⊎◌, inl, inr}
use lavender.Cipher.Des.Stream.Whole.{IsByte}
use lavender.Num.{rstrtoull, isxdigit}
use lavender.Num.Laws.{
  IsXdigit, xdigit, hexadecimal, spell, rstrtoull-hexadecimal, xtob-hex_digit, hex_digit-IsXdigit,
}
use lavender.Enc.Keys.{hex_digit}
use lavender.Enc.{xor, des, tdes, EncContext, success}
use lavender.Enc.Content.{key_size}
use lavender.Enc.Caller.{key_pairs, caller_key, caller_transform}

-- Bytes in hexadecimal digits.
abbrev pub hex : Bytes → Bytes
hex [] = []
hex (b ∷ bytes) = hex_digit (b / 16) ∷ hex_digit (b % 16) ∷ hex bytes

drop-two :
    (i : ℕ) (pre : Bytes) (a b : ℕ) (rest : Bytes)
    → length pre ≡ 2 * i
    → drop (2 * i) (pre ++ a ∷ b ∷ rest) ≡ a ∷ b ∷ rest
drop-two i pre a b rest e = rw (← e) (drop-pre pre)
  where
    drop-pre : (xs : Bytes) → drop (length xs) (xs ++ a ∷ b ∷ rest) ≡ a ∷ b ∷ rest
    drop-pre [] = refl
    drop-pre (x ∷ xs) = drop-pre xs

key_pairs-hex :
    (bytes rest pre : Bytes) (i : ℕ)
    → All IsByte bytes
    → length pre ≡ 2 * i
    → key_pairs (length bytes) i (pre ++ (hex bytes ++ rest)) ≡ some bytes
unfolding key_pairs
key_pairs-hex [] rest pre i h e = refl
key_pairs-hex (b ∷ bytes) rest pre i (is, h) e =
    let a = hex_digit (b / 16) in
    let c = hex_digit (b % 16) in
    let here = drop-two i pre a c (hex bytes ++ rest) e in
    let byte = xtob-hex_digit b (hex bytes ++ rest) is in
    let longer : length (pre ++ a ∷ c ∷ []) ≡ 2 * (i + 1) =
      omega (arith, length-append pre (a ∷ c ∷ []), e) in
    let again = key_pairs-hex bytes rest (pre ++ a ∷ c ∷ []) (i + 1) h longer in
    let same = append_assoc pre (a ∷ c ∷ []) (hex bytes ++ rest) in
    rw (here, byte, rw same at again) refl

-- For DES and triple DES the caller's provider reads the bytes of the key in their order, in hexadecimal digits of
-- lower case, whatever follows them.
pub caller_transform-hex :
    (enc : EncContext) (key rest : Bytes)
    → (enc.cipher ≡ des) ⊎ (enc.cipher ≡ tdes)
    → length key ≡ key_size enc.cipher
    → All IsByte key
    → enc.parameter ≡ hex key ++ rest
    → caller_transform enc
      ≡ some (success 0, record enc { key = key ++ drop (key_size enc.cipher) enc.key })
unfolding caller_transform caller_key
caller_transform-hex enc key rest is size bytes given =
    let run = key_pairs-hex key rest [] 0 bytes refl in
    elim is [
      | inl e ↦
          let pairs : key_pairs 8 0 enc.parameter ≡ some key =
            ap (key_pairs 8 0) given
            ∙ ap (λ (n : ℕ). key_pairs n 0 (hex key ++ rest)) (sym (size ∙ ap key_size e))
            ∙ run in
          rw e (rw pairs refl)
      | inr e ↦
          let pairs : key_pairs 16 0 enc.parameter ≡ some key =
            ap (key_pairs 16 0) given
            ∙ ap (λ (n : ℕ). key_pairs n 0 (hex key ++ rest)) (sym (size ∙ ap key_size e))
            ∙ run in
          rw e (rw pairs refl)
    ]

hex-All : (bytes : Bytes) → All IsByte bytes → All IsXdigit (hex bytes)
hex-All [] h = tt
hex-All (b ∷ bytes) (is, h) = (
  (hex_digit-IsXdigit (b / 16) (omega arith)).0,
  ((hex_digit-IsXdigit (b % 16) (omega arith)).0, hex-All bytes h),
)

-- The number of bytes, the highest first.
abbrev number_of : ℕ → Bytes → ℕ
number_of out [] = out
number_of out (b ∷ bytes) = number_of (out * 256 + b) bytes

spell-hex :
    (out : ℕ) (bytes : Bytes)
    → All IsByte bytes
    → spell (λ n c. n * 16 + xdigit c) out (hex bytes) ≡ number_of out bytes
unfolding spell
spell-hex out [] h = refl
spell-hex out (b ∷ bytes) (is, h) =
    let high = (hex_digit-IsXdigit (b / 16) (omega arith)).1 in
    let low = (hex_digit-IsXdigit (b % 16) (omega arith)).1 in
    let next : (out * 16 + xdigit (hex_digit (b / 16))) * 16 + xdigit (hex_digit (b % 16))
        ≡ out * 256 + b =
      omega (arith, high, low) in
    ap (λ (t : ℕ). spell (λ n c. n * 16 + xdigit c) t (hex bytes)) next
    ∙ spell-hex (out * 256 + b) bytes h

-- For XOR the caller's provider reads the six bytes of the key from the last to the first, in hexadecimal digits of
-- lower case up to a character that is no such digit; two zeros follow the key.
pub caller_transform-hex_backwards :
    (enc : EncContext) (a b c d e f stop : ℕ) (rest : Bytes)
    → enc.cipher ≡ xor
    → All IsByte (a ∷ b ∷ c ∷ d ∷ e ∷ f ∷ [])
    → isxdigit stop ≡ false
    → enc.parameter ≡ hex (f ∷ e ∷ d ∷ c ∷ b ∷ a ∷ []) ++ stop ∷ rest
    → caller_transform enc
      ≡ some (success 0, record enc { key = a ∷ b ∷ c ∷ d ∷ e ∷ f ∷ 0 ∷ 0 ∷ drop 8 enc.key })
unfolding caller_transform caller_key
caller_transform-hex_backwards enc a b c d e f stop rest is bytes ends given =
    let back : All IsByte (f ∷ e ∷ d ∷ c ∷ b ∷ a ∷ []) = omega arith in
    let n = number_of 0 (f ∷ e ∷ d ∷ c ∷ b ∷ a ∷ []) in
    let value : hexadecimal (hex (f ∷ e ∷ d ∷ c ∷ b ∷ a ∷ [])) ≡ n =
      spell-hex 0 (f ∷ e ∷ d ∷ c ∷ b ∷ a ∷ []) back in
    let small : n < 2 ^ 64 = omega arith in
    let digits = hex-All (f ∷ e ∷ d ∷ c ∷ b ∷ a ∷ []) back in
    let read : rstrtoull enc.parameter 16 ≡ some n =
      ap (λ (t : Bytes). rstrtoull t 16) given
      ∙ rstrtoull-hexadecimal [] (hex_digit (f / 16))
          (hex_digit (f % 16) ∷ hex (e ∷ d ∷ c ∷ b ∷ a ∷ [])) stop rest tt digits ends
          (rw value small)
      ∙ ap some value in
    let p0 : n % 256 ≡ a = omega arith in
    let p1 : n / 2 ^ 8 % 256 ≡ b = omega arith in
    let p2 : n / 2 ^ 16 % 256 ≡ c = omega arith in
    let p3 : n / 2 ^ 24 % 256 ≡ d = omega arith in
    let p4 : n / 2 ^ 32 % 256 ≡ e = omega arith in
    let p5 : n / 2 ^ 40 % 256 ≡ f = omega arith in
    let p6 : n / 2 ^ 48 % 256 ≡ 0 = omega arith in
    let p7 : n / 2 ^ 56 % 256 ≡ 0 = omega arith in
    rw (is, read)
      (λ i. some (
        success 0,
        record enc {
          cipher = xor;
          key = p0 i ∷ p1 i ∷ p2 i ∷ p3 i ∷ p4 i ∷ p5 i ∷ p6 i ∷ p7 i ∷ drop 8 enc.key;
        },
      ))
