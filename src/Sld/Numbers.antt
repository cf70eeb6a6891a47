-- ===== src/Sld/Numbers.antt =====
-- `__sld_loadu` of player/src/sld/loader.c. A function that reads from `str` on takes the list of the
-- bytes from there to the end of the buffer; a read behind the end makes the result `none`.
pub mod Laws
use lavender.Base.{
  ℕ, zero, suc, ◌+◌, ◌-◌, ◌*◌, Bool, true, false, List, [], ◌∷◌, Option, some, none, Bytes,
}
use lavender.Base.{ltb, leb, ◌==◌, ◌&&◌, ◌||◌, u16}
use mathlib.Core.Option

-- `isspace` and `isdigit`, in the C locale.
unfoldable pub isspace : ℕ → Bool
isspace c = (c == 32) || (leb 9 c && leb c 13)

unfoldable pub isdigit : ℕ → Bool
isdigit c = leb 48 c && leb c 57

-- What a loop over a text stops at: the number of bytes behind it, a value, and the text from there.
pub record Stopped : Type 0 where
  pub passed : ℕ
  pub value : ℕ
  pub rest : Bytes

abbrev pub one_more : Stopped → Stopped
one_more s = record { passed = suc s.passed; value = s.value; rest = s.rest }

-- The loops over white space.
unfoldable pub skip_spaces : Bytes → Option Stopped
skip_spaces [] = none
skip_spaces (c ∷ str) = elim (isspace c) [
  | true ↦ Option.map one_more (skip_spaces str)
  | false ↦ some (record { passed = 0; value = 0; rest = c ∷ str })
]

-- The loop over digits, with the value of `*out`.
unfoldable pub read_digits : Bytes → ℕ → Option Stopped
read_digits [] out = none
read_digits (c ∷ str) out = elim (isdigit c) [
  | true ↦ Option.map one_more (read_digits str (u16 (u16 (out * 10) + (c - 48))))
  | false ↦ some (record { passed = 0; value = out; rest = c ∷ str })
]

-- The end of `__sld_loadu`, behind the digits: the length, or -1 as `none`, and the number.
unfoldable pub end_number : ℕ → ℕ → Bytes → Option (Option ℕ × ℕ)
end_number passed out [] = none
end_number passed out (c ∷ str) = elim (isspace c) [
  | false ↦ some (none, out)
  | true ↦ Option.map (λ (s : Stopped). (some (passed + s.passed), out)) (skip_spaces (c ∷ str))
]

abbrev pub and_then {ℓ κ} : {A : Type ℓ} {B : Type κ} → Option A → (A → Option B) → Option B
and_then none f = none
and_then (some a) f = f a

unfoldable pub loadu : Bytes → Option (Option ℕ × ℕ)
loadu str = and_then (skip_spaces str) (λ (a : Stopped).
    and_then (read_digits (a.rest) 0)
      (λ (b : Stopped). end_number (a.passed + b.passed) b.value b.rest))
