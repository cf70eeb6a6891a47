-- ===== src/Sld/Loader/Position.antt =====
-- Positions: a number or an alignment mark behind a number.
use lavender.Base.{ℕ, ◌+◌, ◌%◌, ◌^◌, ◌≡◌, ap, ap₂, sym, ◌∙◌, false, arith}
use lavender.Base.{
  List, [], ◌∷◌, ◌++◌, some, none, Bytes, All, length, drop, drop-append, length-append, length-map,
}
use mathlib.Core.List.{append_assoc}
use lavender.Sld.Numbers.{isspace, isdigit, Stopped, loadu}
use lavender.Sld.Numbers.Laws.{
  IsSpace, IsDigit, characters, decimal, loadu-number, loadu-steps, skip_spaces-run,
  read_digits-run, end_number-stop,
}
use lavender.Sld.Loader.{loaded, alignment, load_horizontal, load_position}

mark_plain : (c posx : ℕ) → alignment c ≡ some posx → (isspace c ≡ false) × (isdigit c ≡ false)
unfolding alignment isspace isdigit
mark_plain c posx h = (ground arith, ground arith)

loadu-mark :
    (c posx : ℕ) (rest : Bytes) → alignment c ≡ some posx → loadu (c ∷ rest) ≡ some (none, 0)
unfolding decimal
loadu-mark c posx rest h =
    let (space, digit) = mark_plain c posx h in
    let here : Stopped = record { passed = 0; value = 0; rest = c ∷ rest } in
    loadu-steps (c ∷ rest) here here (none, 0) (skip_spaces-run [] c rest tt space)
      (read_digits-run [] c rest 0 tt digit) (end_number-stop (0 + 0) 0 c rest space)

load_horizontal-mark :
    (passed posy c posx : ℕ) (rest : Bytes)
    → alignment c ≡ some posx
    → load_horizontal passed posy (c ∷ rest) ≡ some (loaded (passed + 1) (posy, posx))
unfolding load_horizontal
load_horizontal-mark passed posy c posx rest h = simp (loadu-mark c posx rest h, h)

load_position-number :
    (str : Bytes) (n posy : ℕ)
    → loadu str ≡ some (some n, posy)
    → load_position str ≡ load_horizontal n posy (drop n str)
unfolding load_position
load_position-number str n posy h = simp h

-- A number with white space behind it and one of the marks `<`, `^` and `>` are a position: the
-- number modulo 2 to the 16th, and the constant of the mark.
pub load_position-mark :
    (before : Bytes) (d : ℕ) (ds : List ℕ) (s : ℕ) (after : Bytes) (c posx : ℕ) (rest : Bytes)
    → All IsSpace before
    → All IsDigit (d ∷ ds)
    → All IsSpace (s ∷ after)
    → alignment c ≡ some posx
    → load_position (before ++ (characters (d ∷ ds) ++ s ∷ (after ++ c ∷ rest)))
      ≡ some (
          loaded
            (length before + length (d ∷ ds) + length (s ∷ after) + 1)
            (decimal 0 (d ∷ ds) % 2 ^ 16, posx))
load_position-mark before d ds s after c posx rest b ds_is a mark =
    let str = before ++ (characters (d ∷ ds) ++ s ∷ (after ++ c ∷ rest)) in
    let front = before ++ (characters (d ∷ ds) ++ s ∷ after) in
    let n = length before + length (d ∷ ds) + length (s ∷ after) in
    let posy = decimal 0 (d ∷ ds) % 2 ^ 16 in
    let whole : front ++ c ∷ rest ≡ str =
      append_assoc before (characters (d ∷ ds) ++ s ∷ after) (c ∷ rest)
      ∙ ap (λ (t : Bytes). before ++ t)
          (append_assoc (characters (d ∷ ds)) (s ∷ after) (c ∷ rest)) in
    let long : length front ≡ n = omega (
      arith,
      length-append before (characters (d ∷ ds) ++ s ∷ after),
      length-append (characters (d ∷ ds)) (s ∷ after),
      length-map (λ (x : ℕ). x + 48) (d ∷ ds),
    ) in
    let behind : drop n str ≡ c ∷ rest =
      ap₂ (λ (k : ℕ) (t : Bytes). drop k t) (sym long) (sym whole) ∙ drop-append front (c ∷ rest) in
    load_position-number str n posy
      (loadu-number before d ds s after c rest b ds_is a ((mark_plain c posx mark).0))
    ∙ ap (load_horizontal n posy) behind
    ∙ load_horizontal-mark n posy c posx rest mark
