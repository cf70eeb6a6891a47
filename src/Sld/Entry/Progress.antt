-- ===== src/Sld/Entry/Progress.antt =====
-- How far `sld_load_entry` of player/src/sld/loader.c moves.
use mathlib.Core.Option
use mathlib.Core.Option.{some_inj}
use lavender.Base.{
  ℕ, zero, suc, ◌+◌, ◌-◌, ◌≤◌, ◌<◌, ◌≡◌, refl, ap, sym, ◌∙◌, ◌≢◌, true, false, inl, inr, arith,
}
use lavender.Base.{
  [], ◌∷◌, Option, some, none, Bytes, length, drop, get_elem?, length-drop, ◌==◌, Bool-cases, Bool,
  if◌then◌else◌,
}
use lavender.Cipher.Des.Stream.{◌>>=◌}
use lavender.Sld.Numbers.{loadu}
use lavender.Sld.Loader.{
  Message, unknown_type, invalid_delay, Loaded, loaded, argerr, is_line_end, load_content,
}
use lavender.Sld.Entry.{
  SldEntry, SldType, label, sld_load_entry, load_blank, load_label, load_typed, end_entry,
  type_of_tag, load_parts, try_load, with_content,
}
use lavender.Sld.Entry.Line.{pass_ends, pass_line}

-- What a result that is there came from.
map-some :
    {A B : Type 0} (f : A → B) (o : Option A) (b : B)
    → Option.map f o ≡ some b
    → (a : A) × (o ≡ some a) × (f a ≡ b)
map-some f none b h = cc
map-some f (some a) b h = (a, refl, some_inj.0 h)

abbrev loaded_length : {A : Type 0} → Loaded A → ℕ
loaded_length (loaded n a) = n
loaded_length (argerr m) = 0

pass_ends-inside : (str : Bytes) (n : ℕ) → pass_ends str ≡ some n → n < length str
unfolding pass_ends
pass_ends-inside [] n h = cc
pass_ends-inside (c ∷ str) n h = elim (Bool-cases (is_line_end c)) [
  | inr e ↦
      let here : pass_ends (c ∷ str) ≡ some 0 = rw (e, pass_ends) refl in
      let k : 0 ≡ n = some_inj.0 (sym here ∙ h) in omega arith
  | inl e ↦
      let here : pass_ends (c ∷ str) ≡ Option.map suc (pass_ends str) = rw (e, pass_ends) refl in
      let (m, at, k) = map-some suc (pass_ends str) n (sym here ∙ h) in
      let rest = pass_ends-inside str m at in omega arith
]

pass_line-inside : (str : Bytes) (n : ℕ) → pass_line str ≡ some n → (1 ≤ n) × (n < length str)
unfolding pass_line
pass_line-inside [] n h = cc
pass_line-inside (c ∷ str) n h = elim (Bool-cases (is_line_end c)) [
  | inl e ↦
      let here : pass_line (c ∷ str) ≡ Option.map suc (pass_ends str) = rw (e, pass_line) refl in
      let (m, at, k) = map-some suc (pass_ends str) n (sym here ∙ h) in
      let rest = pass_ends-inside str m at in (omega arith, omega arith)
  | inr e ↦
      let here : pass_line (c ∷ str) ≡ Option.map suc (pass_line str) = rw (e, pass_line) refl in
      let (m, at, k) = map-some suc (pass_line str) n (sym here ∙ h) in
      let (one, rest) = pass_line-inside str m at in (omega arith, omega arith)
]

-- What a loaded entry has moved by.
abbrev Moves : Bytes → ℕ → Option (Loaded SldEntry) → Type 0
Moves script start r =
    (n : ℕ) (e : SldEntry) → r ≡ some (loaded n e) → (1 ≤ n) × (start + n ≤ length script)

end_entry-Moves :
    (script : Bytes) (start cur : ℕ) (out : SldEntry)
    → start ≤ cur
    → Moves script start (end_entry script start cur out)
unfolding end_entry
end_entry-Moves script start cur out order n e h =
    let (m, at, k) =
      map-some (λ (n : ℕ). loaded (cur + n - start) out) (pass_line (drop cur script)) (loaded n e)
        h in
    let (one, inside) = pass_line-inside (drop cur script) m at in
    let size = length-drop cur script in
    let moved : cur + m - start ≡ n = ap loaded_length k in (omega arith, omega arith)

argerr-Moves : (script : Bytes) (start : ℕ) (m : Message) → Moves script start (some (argerr m))
argerr-Moves script start m n e h = absurd (not_loaded (some_inj.0 h))
  where
    not_loaded : argerr m ≢ loaded n e
    not_loaded h = cc

and_then-Moves :
    {A : Type 0} (script : Bytes) (start : ℕ) (o : Option A) (k : A → Option (Loaded SldEntry))
    → ((a : A) → o ≡ some a → Moves script start (k a))
    → Moves script start (o >>= k)
and_then-Moves script start none k each n e h = cc
and_then-Moves script start (some a) k each n e h = each a refl n e h

try_load-Moves :
    {A : Type 0} (script : Bytes) (start : ℕ) (o : Option (Loaded A))
    (k : ℕ → A → Option (Loaded SldEntry))
    → ((m : ℕ) (a : A) → Moves script start (k m a))
    → Moves script start (try_load o k)
try_load-Moves script start none k each n e h = cc
try_load-Moves script start (some (argerr m)) k each n e h = argerr-Moves script start m n e h
try_load-Moves script start (some (loaded m a)) k each n e h = each m a n e h

if-Moves :
    (script : Bytes) (start : ℕ) (b : Bool) {x y : Option (Loaded SldEntry)}
    → Moves script start x
    → Moves script start y
    → Moves script start (if b then x else y)
if-Moves script start true x y = x
if-Moves script start false x y = y

get_elem?-below : (xs : Bytes) (i a : ℕ) → get_elem? xs i ≡ some a → i < length xs
get_elem?-below [] i a h = cc
get_elem?-below (x ∷ xs) zero a h = omega arith
get_elem?-below (x ∷ xs) (suc i) a h = let rest = get_elem?-below xs i a h in omega arith

load_typed-Moves :
    (script : Bytes) (start cur : ℕ) (out : SldEntry)
    → start ≤ cur
    → Moves script start (load_typed script start cur out)
unfolding load_typed
load_typed-Moves script start cur out order =
    and_then-Moves script start (get_elem? script cur) _ (λ tag at. of_kind (type_of_tag tag))
  where
    of_kind :
        (o : Option SldType)
        → Moves script start (elim o [
          | none ↦ some (argerr unknown_type)
          | some kind ↦
              try_load
                (load_parts kind script (cur + 1) (record out { sld_type = kind }))
                (λ k loaded_entry. end_entry script start (cur + 1) loaded_entry)
        ])
    of_kind none = argerr-Moves script start unknown_type
    of_kind (some kind) =
        try_load-Moves script start
          (load_parts kind script (cur + 1) (record out { sld_type = kind })) _
          (λ k loaded_entry. end_entry-Moves script start (cur + 1) loaded_entry (omega arith))

load_blank-Moves :
    (script : Bytes) (start : ℕ) (out : SldEntry) → Moves script start (load_blank script start out)
unfolding load_blank
load_blank-Moves script start out =
    and_then-Moves script start (get_elem? script (start + 1)) _ (λ next at n e h.
      let moved = ap loaded_length (some_inj.0 h) in
      let inside = get_elem?-below script (start + 1) next at in
      elim (Bool-cases (next == 10)) [
        | inl b ↦ let two : 2 ≡ n = rw b at moved in (omega arith, omega arith)
        | inr b ↦ let one : 1 ≡ n = rw b at moved in (omega arith, omega arith)
      ])

load_label-Moves :
    (script : Bytes) (start : ℕ) (out : SldEntry) → Moves script start (load_label script start out)
unfolding load_label
load_label-Moves script start out =
    try_load-Moves script start (load_content (drop (start + 1) script)) _ (λ k content.
      end_entry-Moves script start (start + 1 + k)
        (with_content (record out { sld_type = label; delay = 0 }) content) (omega arith))

-- A loaded entry is passed: `sld_load_entry` moves by one byte at least and stays inside the bytes that can be
-- read.
pub sld_load_entry-moves :
    (script : Bytes) (start : ℕ) (out e : SldEntry) (n : ℕ)
    → sld_load_entry script start out ≡ some (loaded n e)
    → (1 ≤ n) × (start + n ≤ length script)
unfolding sld_load_entry
sld_load_entry-moves script start out e n h =
    and_then-Moves script start (get_elem? script start) _
      (λ c at. if-Moves script start (c == 13) (load_blank-Moves script start out) (
        if-Moves script start (c == 58) (load_label-Moves script start out) (
          and_then-Moves script start (loadu (drop start script)) _ (λ r number. of_size r (r.0)))))
      n e h
  where
    of_size :
        (r : Option ℕ × ℕ) (size : Option ℕ)
        → Moves script start (elim size [
          | none ↦ some (argerr invalid_delay)
          | some m ↦ load_typed script start (start + m) (record out { delay = r.1 })
        ])
    of_size r none = argerr-Moves script start invalid_delay
    of_size r (some m) =
        load_typed-Moves script start (start + m) (record out { delay = r.1 }) (omega arith)
