-- ===== src/Num.antt =====
-- player/src/numstr.c: numbers in texts. A text is the list of its bytes from a pointer to the end of the buffer;
-- a read behind the end makes the result `none`. `errno` is left out.
pub mod Laws
use lavender.Base.{ℕ, ◌+◌, ◌-◌, ◌*◌, ◌^◌, Bool, true, false, [], ◌∷◌, Option, some, none, Bytes}
use lavender.Base.{ltb, leb, ◌==◌, ◌&&◌, ◌||◌, not, if◌then◌else◌, u8, u64, bit_or, get_elem?}
use lavender.Cipher.Des.Stream.{◌>>=◌}
use lavender.Sld.Numbers.{isspace, isdigit}

-- `isxdigit`, `tolower` and `toupper`, in the C locale.
unfoldable pub isxdigit : ℕ → Bool
unfolding isdigit
isxdigit c = isdigit c || (leb 65 c && leb c 70) || (leb 97 c && leb c 102)

abbrev pub tolower : ℕ → ℕ
tolower c = if leb 65 c && leb c 90 then c + 32 else c

abbrev pub toupper : ℕ → ℕ
toupper c = if leb 97 c && leb c 122 then c - 32 else c

-- UINT64_MAX
abbrev pub uint64_max : ℕ
uint64_max = 2 ^ 64 - 1

-- `_digxform_10` and `_digxform_16`
unfoldable pub digxform_10 : ℕ → ℕ → ℕ
digxform_10 c num = u64 (u64 (num * 10) + (c - 48))

unfoldable pub digxform_16 : ℕ → ℕ → ℕ
unfolding isdigit
digxform_16 c num = u64 (u64 (num * 2 ^ 4) + (if isdigit c then c - 48 else tolower c - 97 + 10))

-- `RSTRTOULL`
unfoldable pub rstrtoull_loop : (ℕ → Bool) → (ℕ → ℕ → ℕ) → Bytes → ℕ → Option ℕ
rstrtoull_loop condition digxform [] num = none
rstrtoull_loop condition digxform (c ∷ str) num =
    let next = digxform c num in
    let rest = rstrtoull_loop condition digxform str next in
    if condition c then (if ltb next num then some uint64_max else rest) else some num

-- The text behind its white space.
unfoldable pub skip_space : Bytes → Option Bytes
unfolding isspace
skip_space [] = none
skip_space (c ∷ str) = let rest = skip_space str in if isspace c then rest else some (c ∷ str)

unfoldable pub rstrtoull : Bytes → ℕ → Option ℕ
unfolding rstrtoull_loop skip_space
rstrtoull str base = do
  text ← skip_space str
  if base == 10
      then rstrtoull_loop isdigit digxform_10 text 0
      else if base == 16
      then rstrtoull_loop isxdigit digxform_16 text 0
      else some uint64_max

-- The loop of `ISCTYPESTR`.
unfoldable pub all_of : (ℕ → Bool) → Bytes → Option Bool
all_of predicate [] = none
all_of predicate (c ∷ str) =
    let rest = all_of predicate str in
    if c == 0 then some true else if predicate c then rest else some false

-- `ISCTYPESTR`
unfoldable pub isctypestr : (ℕ → Bool) → Bytes → Option Bool
unfolding all_of
isctypestr predicate str = do
  c ← get_elem? str 0
  if c == 0 then some false else all_of predicate str

unfoldable pub isdigstr : Bytes → Option Bool
unfolding isctypestr
isdigstr str = isctypestr isdigit str

unfoldable pub isxdigstr : Bytes → Option Bool
unfolding isctypestr
isxdigstr str = isctypestr isxdigit str

-- The value of a digit in `xtob`.
unfoldable pub xtob_digit : ℕ → ℕ
unfolding isdigit
xtob_digit c = if isdigit c then c - 48 else toupper c - 65 + 10

unfoldable pub xtob : Bytes → Option ℕ
unfolding isxdigit xtob_digit
xtob str = do
  high ← get_elem? str 0
  if not (isxdigit high) then some 0 else (do
    low ← get_elem? str 1
    some (if not (isxdigit low) then 0 else u8 (bit_or (xtob_digit high * 2 ^ 4) (xtob_digit low))))
