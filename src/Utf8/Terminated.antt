-- ===== src/Utf8/Terminated.antt =====
-- On a terminated text no read goes behind the terminator, well-formed or not.
use lavender.Base.{ℕ, zero, suc, ◌+◌, ◌-◌, ◌≤◌, ◌<◌, ◌≡◌, refl, ap, ◌∙◌, [], ◌∷◌}
use lavender.Base.{
  some, none, Option, arith, true, false, Bytes, length, drop, ◌==◌, get_elem?, bit_and, bit_or,
  u16, ◌<<<◌, ◌≢◌,
}
use lavender.Base.{◌⊎◌, inl, inr, Bool-cases, Option-cases}
use lavender.Utf8.{
  Decoded, point, illegal, continue_at, get_codepoint, strlen_loop, strlen, length_of, leading,
}

-- A zero byte stands in the buffer.
abbrev pub IsTerminated : Bytes → Type 0
IsTerminated [] = ⊥
IsTerminated (b ∷ bytes) = (b ≡ 0) ⊎ IsTerminated bytes

length-drop : (n : ℕ) (str : Bytes) → length (drop n str) ≡ length str - n
length-drop zero str = omega arith
length-drop (suc n) [] = omega arith
length-drop (suc n) (b ∷ str) = omega (arith, length-drop n str)

next_byte :
    (i : ℕ) (str : Bytes)
    → IsTerminated (drop i str)
    → (b : ℕ) × (get_elem? str i ≡ some b) × ((b ≡ 0) ⊎ IsTerminated (drop (suc i) str))
next_byte zero [] h = absurd h
next_byte zero (b ∷ str) h = (b, refl, h)
next_byte (suc i) [] h = absurd h
next_byte (suc i) (b ∷ str) h = next_byte i str h

-- Either the sequence is refused, or it ends before the terminator does.
abbrev Stays : Bytes → Decoded → Type 0
Stays str d = (d ≡ illegal) ⊎ ((0 < length_of d) × IsTerminated (drop (length_of d) str))

continue_at-suc :
    (left : ℕ) (str : Bytes) (i cp : ℕ) {b : ℕ}
    → get_elem? str i ≡ some b
    → (bit_and b 0xC0 == 0x80) ≡ true
    → continue_at str (suc left) i cp
      ≡ continue_at str left (suc i) (u16 (bit_or (cp <<< 6) (bit_and b 0x3F)))
unfolding continue_at
continue_at-suc left str i cp {b} read cont =
    simp (read, cont)
      (ap (λ (k : ℕ). continue_at str left k (u16 (bit_or (cp <<< 6) (bit_and b 0x3F))))
        (omega arith))

not_zero : (b : ℕ) → (bit_and b 0xC0 == 0x80) ≡ true → b ≢ 0
not_zero b cont e = cc (rw e at cont)

continue_at-Stays :
    (left : ℕ) (str : Bytes) (i cp : ℕ)
    → IsTerminated (drop (suc i) str)
    → (d : Decoded) × (continue_at str left (suc i) cp ≡ some d) × Stays str d
continue_at-Stays zero str i cp h =
    (point cp (suc i), unfold continue_at in refl, inr (omega arith, h))
continue_at-Stays (suc left) str i cp h =
    let (b, read, more) = next_byte (suc i) str h in
    elim (Bool-cases (bit_and b 0xC0 == 0x80)) [
      | inr other ↦ (illegal, unfold continue_at in simp (read, other), inl refl)
      | inl cont ↦
          let later : IsTerminated (drop (suc (suc i)) str) = elim more [
            | inl e ↦ absurd (not_zero b cont e)
            | inr t ↦ t
          ] in
          let (d, run, stays) =
            continue_at-Stays left str (suc i) (u16 (bit_or (cp <<< 6) (bit_and b 0x3F))) later in
          (d, continue_at-suc left str (suc i) cp read cont ∙ run, stays)
    ]

leading-cases : (b : ℕ) → (leading b ≡ none) ⊎ ((n : ℕ) × (cp : ℕ) × (leading b ≡ some (n, cp)))
leading-cases b = elim (Option-cases (leading b)) [
  | inl e ↦ inl e
  | inr ((n, cp), e) ↦ inr (n, cp, e)
]

get_codepoint-long :
    (str : Bytes) {b : ℕ}
    → get_elem? str 0 ≡ some b
    → (bit_and b 0xC0 == 0x80) ≡ false
    → (bit_and b 0xC0 == 0xC0) ≡ true
    → leading b ≡ none
    → get_codepoint str ≡ some illegal
unfolding get_codepoint
get_codepoint-long str read other lead long = ground arith

get_codepoint-run :
    (str : Bytes) {b n cp : ℕ}
    → get_elem? str 0 ≡ some b
    → (bit_and b 0xC0 == 0x80) ≡ false
    → (bit_and b 0xC0 == 0xC0) ≡ true
    → leading b ≡ some (n, cp)
    → get_codepoint str ≡ continue_at str n 1 cp
unfolding get_codepoint
get_codepoint-run str read other lead first = ground arith

get_codepoint-Stays :
    (str : Bytes) {b : ℕ}
    → get_elem? str 0 ≡ some b
    → IsTerminated (drop 1 str)
    → (d : Decoded) × (get_codepoint str ≡ some d) × Stays str d
unfolding get_codepoint
get_codepoint-Stays str {b} read h = elim (Bool-cases (bit_and b 0xC0 == 0x80)) [
  | inl follow ↦ (illegal, simp (read, follow), inl refl)
  | inr other ↦ elim (Bool-cases (bit_and b 0xC0 == 0xC0)) [
    | inr plain ↦ (point b 1, simp (read, other, plain), inr (omega arith, h))
    | inl lead ↦ elim (leading-cases b) [
      | inl long ↦ (illegal, get_codepoint-long str read other lead long, inl refl)
      | inr (n, cp, first) ↦
          let (d, run, stays) = continue_at-Stays n str 0 cp h in
          (d, get_codepoint-run str read other lead first ∙ run, stays)
    ]
  ]
]

strlen_loop-illegal :
    (fuel i : ℕ) (str : Bytes) {b : ℕ}
    → get_elem? str 0 ≡ some b
    → (b == 0) ≡ false
    → get_codepoint str ≡ some illegal
    → strlen_loop (suc fuel) str i ≡ some none
unfolding strlen_loop
strlen_loop-illegal fuel i str read more decoded = ground arith

strlen_loop-point :
    (fuel i : ℕ) (str : Bytes) {b cp n : ℕ}
    → get_elem? str 0 ≡ some b
    → (b == 0) ≡ false
    → get_codepoint str ≡ some (point cp n)
    → (n == 0) ≡ false
    → strlen_loop (suc fuel) str i ≡ strlen_loop fuel (drop n str) (i + 1)
unfolding strlen_loop
strlen_loop-point fuel i str read more decoded moves = ground arith

strlen_loop-advance :
    (fuel i : ℕ) (str : Bytes) (d : Decoded) {b : ℕ}
    → get_elem? str 0 ≡ some b
    → (b == 0) ≡ false
    → get_codepoint str ≡ some d
    → Stays str d
    → (strlen_loop (suc fuel) str i ≡ some none)
      ⊎ ((n : ℕ) × (0 < n)
          × IsTerminated (drop n str)
          × (strlen_loop (suc fuel) str i ≡ strlen_loop fuel (drop n str) (i + 1)))
strlen_loop-advance fuel i str illegal read more decoded stays =
    inl (strlen_loop-illegal fuel i str read more decoded)
strlen_loop-advance fuel i str (point cp n) read more decoded (inl bad) = absurd (cc bad)
strlen_loop-advance fuel i str (point cp n) read more decoded (inr (moves, rest)) =
    inr (n, moves, rest, strlen_loop-point fuel i str read more decoded (ground arith))

strlen_loop_total :
    (fuel : ℕ) (str : Bytes) (i : ℕ)
    → IsTerminated str
    → length str ≤ fuel
    → (r : Option ℕ) × (strlen_loop fuel str i ≡ some r)
unfolding strlen_loop
strlen_loop_total zero [] i h enough = absurd h
strlen_loop_total zero (b ∷ str) i h enough = absurd (omega arith)
strlen_loop_total (suc fuel) [] i h enough = absurd h
strlen_loop_total (suc fuel) (zero ∷ str) i h enough = (some i, refl)
strlen_loop_total (suc fuel) (suc b ∷ str) i h enough =
    let later : IsTerminated str = elim h [ inl e ↦ absurd (omega arith) | inr t ↦ t ] in
    let (d, decoded, stays) = get_codepoint-Stays (suc b ∷ str) refl later in
    elim (strlen_loop-advance fuel i (suc b ∷ str) d refl (ground arith) decoded stays) [
      | inl bad ↦ (none, bad)
      | inr (n, moves, rest, goes) ↦
          let (r, run) =
            strlen_loop_total fuel (drop n (suc b ∷ str)) (i + 1) rest
              (omega (arith, length-drop n (suc b ∷ str))) in
          (r, goes ∙ run)
    ]

-- `utf8_strlen` on a terminated text, well-formed or not, ends with a count or with -1, and reads
-- nothing behind the terminator.
pub strlen_total : (str : Bytes) → IsTerminated str → (r : Option ℕ) × (strlen str ≡ some r)
unfolding strlen
strlen_total str h = strlen_loop_total (length str) str 0 h (omega arith)
