-- ===== src/Sld/Numbers/Laws.antt =====
-- Which numbers `__sld_loadu` reads.
use lavender.Base.{ℕ, ◌+◌, ◌-◌, ◌*◌, ◌%◌, ◌^◌, ◌<◌, ◌≡◌, ap, ◌∙◌, true, false, arith}
use lavender.Base.{List, [], ◌∷◌, ◌++◌, map, Option, some, none, Bytes, All, length, u16}
use mathlib.Core.Option
use lavender.Sld.Numbers.{
  isspace, isdigit, Stopped, one_more, skip_spaces, read_digits, end_number, loadu,
}

abbrev pub IsSpace : ℕ → Type 0
IsSpace c = isspace c ≡ true

abbrev pub IsDigit : ℕ → Type 0
IsDigit d = d < 10

-- The number that decimal digits spell, behind a number that is there already.
unfoldable pub decimal : ℕ → List ℕ → ℕ
decimal out [] = out
decimal out (d ∷ ds) = decimal (out * 10 + d) ds

-- The characters of digits.
abbrev pub characters : List ℕ → Bytes
characters ds = map (λ (d : ℕ). d + 48) ds

digit_is : (d : ℕ) → IsDigit d → isdigit (d + 48) ≡ true
unfolding isdigit
digit_is d h = ground arith

digit_not_space : (d : ℕ) → IsDigit d → isspace (d + 48) ≡ false
unfolding isspace
digit_not_space d h = ground arith

space_not_digit : (c : ℕ) → isspace c ≡ true → isdigit c ≡ false
unfolding isspace isdigit
space_not_digit c h = ground arith

skip_spaces-stop :
    (c : ℕ) (str : Bytes)
    → isspace c ≡ false
    → skip_spaces (c ∷ str) ≡ some (record { passed = 0; value = 0; rest = c ∷ str })
unfolding skip_spaces
skip_spaces-stop c str h = ground arith

skip_spaces-go :
    (c : ℕ) (str : Bytes)
    → isspace c ≡ true
    → skip_spaces (c ∷ str) ≡ Option.map one_more (skip_spaces str)
unfolding skip_spaces
skip_spaces-go c str h = ground arith

pub skip_spaces-run :
    (spaces : Bytes) (c : ℕ) (rest : Bytes)
    → All IsSpace spaces
    → isspace c ≡ false
    → skip_spaces (spaces ++ c ∷ rest)
      ≡ some (record { passed = length spaces; value = 0; rest = c ∷ rest })
skip_spaces-run [] c rest h stop = skip_spaces-stop c rest stop
skip_spaces-run (s ∷ spaces) c rest (is, h) stop =
    skip_spaces-go s (spaces ++ c ∷ rest) is
    ∙ ap (Option.map one_more) (skip_spaces-run spaces c rest h stop)

read_digits-stop :
    (c : ℕ) (str : Bytes) (out : ℕ)
    → isdigit c ≡ false
    → read_digits (c ∷ str) out ≡ some (record { passed = 0; value = out; rest = c ∷ str })
unfolding read_digits
read_digits-stop c str out h = ground arith

read_digits-go :
    (c : ℕ) (str : Bytes) (out : ℕ)
    → isdigit c ≡ true
    → read_digits (c ∷ str) out
      ≡ Option.map one_more (read_digits str (u16 (u16 (out * 10) + (c - 48))))
unfolding read_digits
read_digits-go c str out h = ground arith

pub read_digits-run :
    (ds : List ℕ) (c : ℕ) (rest : Bytes) (out : ℕ)
    → All IsDigit ds
    → isdigit c ≡ false
    → read_digits (characters ds ++ c ∷ rest) (out % 2 ^ 16)
      ≡ some (record { passed = length ds; value = decimal out ds % 2 ^ 16; rest = c ∷ rest })
unfolding decimal
read_digits-run [] c rest out h stop = read_digits-stop c rest (out % 2 ^ 16) stop
read_digits-run (d ∷ ds) c rest out (is, h) stop =
    let next : u16 (u16 (out % 2 ^ 16 * 10) + (d + 48 - 48)) ≡ (out * 10 + d) % 2 ^ 16 =
      omega arith in
    read_digits-go (d + 48) (characters ds ++ c ∷ rest) (out % 2 ^ 16) (digit_is d is)
    ∙ ap (λ (t : ℕ). Option.map one_more (read_digits (characters ds ++ c ∷ rest) t)) next
    ∙ ap (Option.map one_more) (read_digits-run ds c rest (out * 10 + d) h stop)

pub end_number-stop :
    (passed out c : ℕ) (str : Bytes)
    → isspace c ≡ false
    → end_number passed out (c ∷ str) ≡ some (none, out)
unfolding end_number
end_number-stop passed out c str is = ground arith

end_number-go :
    (passed out c : ℕ) (str : Bytes)
    → isspace c ≡ true
    → end_number passed out (c ∷ str)
      ≡ Option.map (λ (s : Stopped). (some (passed + s.passed), out)) (skip_spaces (c ∷ str))
unfolding end_number
end_number-go passed out c str is = ground arith

end_number-space :
    (passed out c : ℕ) (str : Bytes) (s : Stopped)
    → IsSpace c
    → skip_spaces (c ∷ str) ≡ some s
    → end_number passed out (c ∷ str) ≡ some (some (passed + s.passed), out)
end_number-space passed out c str s is run =
    end_number-go passed out c str is
    ∙ ap (Option.map (λ (t : Stopped). (some (passed + t.passed), out))) run

pub loadu-steps :
    (str : Bytes) (a b : Stopped) (r : Option ℕ × ℕ)
    → skip_spaces str ≡ some a
    → read_digits (a.rest) 0 ≡ some b
    → end_number (a.passed + b.passed) (b.value) (b.rest) ≡ some r
    → loadu str ≡ some r
unfolding loadu
loadu-steps str a b r first second third = simp (first, second, third)

-- A number in decimal digits, between white space that may be absent before it and may not be
-- absent behind it, is read modulo 2 to the 16th, with all of that passed.
pub loadu-number :
    (before : Bytes) (d : ℕ) (ds : List ℕ) (s : ℕ) (after : Bytes) (c : ℕ) (rest : Bytes)
    → All IsSpace before
    → All IsDigit (d ∷ ds)
    → All IsSpace (s ∷ after)
    → isspace c ≡ false
    → loadu (before ++ (characters (d ∷ ds) ++ s ∷ (after ++ c ∷ rest)))
      ≡ some
          (some (length before + length (d ∷ ds) + length (s ∷ after)), decimal 0 (d ∷ ds) % 2 ^ 16)
loadu-number before d ds s after c rest b ds_is a stop =
    let tail = s ∷ (after ++ c ∷ rest) in
    let first =
      skip_spaces-run before (d + 48) (characters ds ++ tail) b (digit_not_space d (ds_is.0)) in
    let second = read_digits-run (d ∷ ds) s (after ++ c ∷ rest) 0 ds_is (space_not_digit s (a.0)) in
    let third = skip_spaces-run (s ∷ after) c rest a stop in
    loadu-steps (before ++ (characters (d ∷ ds) ++ tail))
      (record { passed = length before; value = 0; rest = (characters (d ∷ ds) ++ tail) })
      (record { passed = length (d ∷ ds); value = decimal 0 (d ∷ ds) % 2 ^ 16; rest = tail })
      (some (length before + length (d ∷ ds) + length (s ∷ after)), decimal 0 (d ∷ ds) % 2 ^ 16)
      first second
      (end_number-space (length before + length (d ∷ ds)) (decimal 0 (d ∷ ds) % 2 ^ 16) s
        (after ++ c ∷ rest) (record { passed = length (s ∷ after); value = 0; rest = c ∷ rest })
        (a.0) third)
