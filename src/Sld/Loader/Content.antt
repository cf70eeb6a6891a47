-- ===== src/Sld/Loader/Content.antt =====
-- The content of a line: what is kept, and when a line is refused.
use lavender.Base.{
  ℕ, suc, ◌+◌, ◌%◌, ◌^◌, ◌≤◌, ◌<◌, ◌≡◌, refl, ap, ◌∙◌, true, false, leb, ◌==◌, if◌then◌else◌, arith,
}
use lavender.Base.{[], ◌∷◌, ◌++◌, Option, some, none, Bytes, All, length, ◌⊎◌, inl, inr}
use mathlib.Core.Option
use lavender.Sld.Numbers.{isspace, Stopped, skip_spaces, and_then}
use lavender.Sld.Numbers.Laws.{IsSpace, skip_spaces-run}
use lavender.Sld.Loader.{
  loaded, argerr, long_content, is_line_end, content_loop, to_content, load_content,
}

-- A character that does not end a line.
abbrev pub IsInside : ℕ → Type 0
IsInside c = is_line_end c ≡ false

content_loop-end :
    (c : ℕ) (str : Bytes) (written : ℕ)
    → is_line_end c ≡ true
    → written ≤ 255
    → content_loop (c ∷ str) written ≡ some (some [])
unfolding content_loop
content_loop-end c str written h room = ground arith

content_loop-full :
    (c : ℕ) (str : Bytes) (written : ℕ)
    → is_line_end c ≡ true
    → 255 < written
    → content_loop (c ∷ str) written ≡ none
unfolding content_loop
content_loop-full c str written h full = ground arith

content_loop-go :
    (c : ℕ) (str : Bytes) (written : ℕ)
    → IsInside c
    → written ≤ 255
    → content_loop (c ∷ str) written
      ≡ Option.map (Option.map (λ (cs : Bytes). c ∷ cs)) (content_loop str (suc written))
unfolding content_loop
content_loop-go c str written h fits = ground arith

content_loop-long :
    (c : ℕ) (str : Bytes) (written : ℕ)
    → IsInside c
    → 255 < written
    → content_loop (c ∷ str) written ≡ some none
unfolding content_loop
content_loop-long c str written h long = ground arith

content_loop-fits :
    (cs : Bytes) (e : ℕ) (rest : Bytes) (written : ℕ)
    → All IsInside cs
    → is_line_end e ≡ true
    → written + length cs ≤ 255
    → content_loop (cs ++ e ∷ rest) written ≡ some (some cs)
content_loop-fits [] e rest written h end fits = content_loop-end e rest written end (omega arith)
content_loop-fits (c ∷ cs) e rest written (i, h) end fits =
    content_loop-go c (cs ++ e ∷ rest) written i (omega arith)
    ∙ ap (Option.map (Option.map (λ (t : Bytes). c ∷ t)))
        (content_loop-fits cs e rest (suc written) h end (omega arith))

content_loop-behind :
    (cs : Bytes) (e : ℕ) (rest : Bytes) (written : ℕ)
    → All IsInside cs
    → is_line_end e ≡ true
    → written + length cs ≡ 256
    → content_loop (cs ++ e ∷ rest) written ≡ none
content_loop-behind [] e rest written h end full =
    content_loop-full e rest written end (omega arith)
content_loop-behind (c ∷ cs) e rest written (i, h) end full =
    content_loop-go c (cs ++ e ∷ rest) written i (omega arith)
    ∙ ap (Option.map (Option.map (λ (t : Bytes). c ∷ t)))
        (content_loop-behind cs e rest (suc written) h end (omega arith))

content_loop-refused :
    (cs : Bytes) (e : ℕ) (rest : Bytes) (written : ℕ)
    → All IsInside cs
    → written ≤ 256
    → 256 < written + length cs
    → content_loop (cs ++ e ∷ rest) written ≡ some none
content_loop-refused [] e rest written h start long = absurd (omega arith)
content_loop-refused (c ∷ cs) e rest written (i, h) start long =
    let split : (written ≤ 255) ⊎ (255 < written) = omega arith in
    elim split [
      | inr full ↦ content_loop-long c (cs ++ e ∷ rest) written i full
      | inl room ↦
          content_loop-go c (cs ++ e ∷ rest) written i room
          ∙ ap (Option.map (Option.map (λ (t : Bytes). c ∷ t)))
              (content_loop-refused cs e rest (suc written) h (omega arith) (omega arith))
    ]

load_content-steps :
    (str : Bytes) (a : Stopped) (r : Option (Option Bytes))
    → skip_spaces str ≡ some a
    → content_loop (a.rest) 0 ≡ r
    → load_content str ≡ Option.map (to_content (a.passed)) r
unfolding load_content
load_content-steps str a r first second =
    ap
      (λ (t : Option Stopped).
        and_then t (λ (b : Stopped). Option.map (to_content (b.passed)) (content_loop (b.rest) 0)))
      first
    ∙ ap (Option.map (to_content (a.passed))) second

-- The content of a line is its text behind the white space at its front, up to the end of the line, when that has one to 255
-- characters, and the length is theirs. A longer one is refused, but for one of 256 characters, whose terminator is stored
-- behind the array of the entry, a fault.
pub load_content-line :
    (spaces : Bytes) (c : ℕ) (cs : Bytes) (e : ℕ) (rest : Bytes)
    → All IsSpace spaces
    → isspace c ≡ false
    → All IsInside (c ∷ cs)
    → is_line_end e ≡ true
    → load_content (spaces ++ c ∷ (cs ++ e ∷ rest)) ≡ (
        if leb (length (c ∷ cs)) 255
        then some (loaded (length spaces + length (c ∷ cs)) (c ∷ cs, length (c ∷ cs)))
        else if length (c ∷ cs) == 256
        then none
        else some (argerr long_content))
load_content-line spaces c cs e rest h first inside end =
    let start : Stopped = record {
      passed = length spaces;
      value = 0;
      rest = c ∷ (cs ++ e ∷ rest);
    } in
    let str = spaces ++ c ∷ (cs ++ e ∷ rest) in
    let run = skip_spaces-run spaces c (cs ++ e ∷ rest) h first in
    let split : (length (c ∷ cs) ≤ 255) ⊎ (length (c ∷ cs) ≡ 256) ⊎ (256 < length (c ∷ cs)) =
      omega arith in
    elim split [
      | inl fits ↦
          let test : leb (length (c ∷ cs)) 255 ≡ true = ground arith in
          let whole : length (c ∷ cs) % 2 ^ 8 ≡ length (c ∷ cs) = omega arith in
          load_content-steps str start (some (some (c ∷ cs))) run
            (content_loop-fits (c ∷ cs) e rest 0 inside end (omega arith))
          ∙ ap (λ (k : ℕ). some (loaded (length spaces + length (c ∷ cs)) (c ∷ cs, k))) whole
          ∙ rw test refl
      | inr (inl full) ↦
          let test : leb (length (c ∷ cs)) 255 ≡ false = ground arith in
          let test' : (length (c ∷ cs) == 256) ≡ true = ground arith in
          load_content-steps str start none run
            (content_loop-behind (c ∷ cs) e rest 0 inside end (omega arith))
          ∙ rw (test, test') refl
      | inr (inr long) ↦
          let test : leb (length (c ∷ cs)) 255 ≡ false = ground arith in
          let test' : (length (c ∷ cs) == 256) ≡ false = ground arith in
          load_content-steps str start (some none) run
            (content_loop-refused (c ∷ cs) e rest 0 inside (omega arith) (omega arith))
          ∙ rw (test, test') refl
    ]
