-- ===== src/Cipher/InPlace/XorLaws.antt =====
-- `_xor_decrypt` over its own data leaves what it would write elsewhere.
use mathlib.Core.List.{append_assoc}
use lavender.Base.{ℕ, zero, suc, ◌+◌, ◌≤◌, ◌≡◌, refl, ap, ◌∙◌, Bytes, [], ◌∷◌, ◌++◌, arith}
use lavender.Base.{some, drop, length, length-append, get_elem?, Option-cases, inl, inr}
use lavender.Cipher.Stream.{Stream}
use lavender.Cipher.Xor.{xor_byte, xor_loop, xor_decrypt}
use lavender.Cipher.InPlace.Store.{store-append}
use lavender.Cipher.InPlace.{store, xor_loop_in_place, xor_decrypt_in_place}

get_elem?-middle : (pre rest : Bytes) (b : ℕ) → get_elem? (pre ++ b ∷ rest) (length pre) ≡ some b
get_elem?-middle [] rest b = refl
get_elem?-middle (x ∷ pre) rest b = get_elem?-middle pre rest b

-- What a byte becomes does not depend on the bytes before it.
xor_byte-middle :
    (s : Stream) (pre orig rest : Bytes) (b : ℕ)
    → length pre ≡ length orig
    → xor_byte (record s { content = pre ++ b ∷ rest }) (length orig)
      ≡ xor_byte (record s { content = orig ++ b ∷ rest }) (length orig)
unfolding xor_byte
xor_byte-middle s pre orig rest b e =
    let here : get_elem? (pre ++ b ∷ rest) (length orig) ≡ some b =
      rw (← e) (get_elem?-middle pre rest b) in
    rw (here, get_elem?-middle orig rest b) refl

pub xor_loop-suc :
    (s : Stream) (left i : ℕ) {out : Bytes}
    → xor_loop s (suc left) i ≡ some out
    → (b : ℕ) × (rest : Bytes) × (xor_byte s i ≡ some b)
      × (xor_loop s left (i + 1) ≡ some rest)
      × (out ≡ b ∷ rest)
unfolding xor_loop
xor_loop-suc s left i h = elim (Option-cases (xor_byte s i)) [
  | inl e ↦ absurd (ground arith)
  | inr (b, e) ↦ elim (Option-cases (xor_loop s left (i + 1))) [
    | inl e' ↦ absurd (ground arith)
    | inr (rest, e') ↦ (b, rest, e, e', ground arith)
  ]
]

snoc : (xs ys : Bytes) (b : ℕ) → (xs ++ b ∷ []) ++ ys ≡ xs ++ b ∷ ys
snoc xs ys b = append_assoc xs (b ∷ []) ys

length-snoc : (xs : Bytes) (b : ℕ) → length (xs ++ b ∷ []) ≡ length xs + 1
length-snoc xs b = length-append xs (b ∷ [])

xor_loop_in_place-step :
    (s : Stream) (left v b : ℕ) (pre orig rest : Bytes)
    → length pre ≡ length orig
    → xor_byte (record s { content = orig ++ b ∷ rest }) (length orig) ≡ some v
    → xor_loop_in_place (record s { content = pre ++ b ∷ rest }) (suc left) (length orig)
      ≡ xor_loop_in_place
          (record s { content = (pre ++ v ∷ []) ++ rest })
          left
          (length (orig ++ b ∷ []))
unfolding xor_loop_in_place
xor_loop_in_place-step s left v b pre orig rest e h =
    let byte : xor_byte (record s { content = pre ++ b ∷ rest }) (length orig) ≡ some v =
      xor_byte-middle s pre orig rest b e ∙ h in
    let stored : store (pre ++ b ∷ rest) (length orig) (v ∷ []) ≡ some (pre ++ v ∷ rest) =
      rw (← e) (store-append pre (v ∷ []) (b ∷ rest) (omega arith)) in
    rw (byte, stored, snoc pre rest v, length-snoc orig b) refl

xor_loop_in_place-append :
    (s : Stream) (left : ℕ) (pre orig rest : Bytes) {out : Bytes}
    → length pre ≡ length orig
    → left ≤ length rest
    → xor_loop (record s { content = orig ++ rest }) left (length orig) ≡ some out
    → xor_loop_in_place (record s { content = pre ++ rest }) left (length orig)
      ≡ some (pre ++ (out ++ drop left rest))
unfolding xor_loop xor_loop_in_place
xor_loop_in_place-append s zero pre orig rest e fits h = ground arith
xor_loop_in_place-append s (suc left) pre orig [] e fits h = absurd (omega arith)
xor_loop_in_place-append s (suc left) pre orig (b ∷ rest) {out} e fits h =
    let (v, out', byte, loop, eq) =
      xor_loop-suc (record s { content = orig ++ b ∷ rest }) left (length orig) h in
    let next : xor_loop (record s { content = (orig ++ b ∷ []) ++ rest }) left
          (length (orig ++ b ∷ []))
        ≡ some out' =
      rw (snoc orig rest b, length-snoc orig b) loop in
    xor_loop_in_place-step s left v b pre orig rest e byte
    ∙ xor_loop_in_place-append s left (pre ++ v ∷ []) (orig ++ b ∷ []) rest
        (rw (length-snoc pre v, length-snoc orig b, e) refl) (omega arith) next
    ∙ ap some (rw (eq, snoc pre (out' ++ drop left rest) v) refl)

-- Where `_xor_decrypt` writes its output over its data, the buffer holds what it would write elsewhere,
-- and the bytes behind the data as they were.
pub xor_decrypt_in_place-xor_decrypt :
    (s : Stream) {out : Bytes}
    → s.data_length ≤ length s.content
    → xor_decrypt s ≡ some out
    → xor_decrypt_in_place s ≡ some (out ++ drop s.data_length s.content)
unfolding xor_decrypt xor_decrypt_in_place
xor_decrypt_in_place-xor_decrypt s fits h =
    xor_loop_in_place-append s s.data_length [] [] s.content refl fits h
