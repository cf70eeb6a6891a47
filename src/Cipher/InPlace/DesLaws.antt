-- ===== src/Cipher/InPlace/DesLaws.antt =====
-- `des_decrypt` over its own data leaves what it would write elsewhere.
use mathlib.Core.List.{append_assoc, append-nil}
use lavender.Base.{
  ℕ, zero, suc, ◌+◌, ◌-◌, ◌/◌, ◌≤◌, ◌≡◌, refl, ap, sym, ◌∙◌, Bytes, [], ◌∷◌, ◌++◌, arith,
}
use lavender.Base.{
  Option, none, some, ltb, take, drop, length, length-append, get_or, Option-cases, inl, inr, true,
  false, Bool, Bool-cases,
}
use lavender.Cipher.Stream.{Stream, Context}
use mathlib.Core.Option
use lavender.Cipher.Des.Stream.{
  ◌>>=◌, from_bytes, to_bytes, get_pt, decrypt_loop, copy_unpadded, des_decrypt,
}
use lavender.Cipher.InPlace.{store, Place, decrypt_loop_in_place, des_decrypt_in_place}
use lavender.Cipher.InPlace.Store.{store-append, drop-append_more}

from_bytes-length : (bytes : Bytes) {n : ℕ} → from_bytes bytes ≡ some n → 8 ≤ length bytes
unfolding from_bytes
from_bytes-length (a ∷ b ∷ c ∷ d ∷ e ∷ f ∷ g ∷ h ∷ rest) eq = omega arith
from_bytes-length _ eq = cc

length-to_bytes : (n : ℕ) → length (to_bytes n) ≡ 8
unfolding to_bytes
length-to_bytes n = refl

drop-drop : (m n : ℕ) (xs : Bytes) → drop n (drop m xs) ≡ drop (m + n) xs
drop-drop zero n xs = let e : 0 + n ≡ n = omega arith in rw e refl
drop-drop (suc m) zero [] = let e : suc m + 0 ≡ suc m = omega arith in rw e refl
drop-drop (suc m) (suc n) [] = let e : suc m + suc n ≡ suc (m + suc n) = omega arith in rw e refl
drop-drop (suc m) n (x ∷ xs) =
    let e : suc m + n ≡ suc (m + n) = omega arith in rw e (drop-drop m n xs)

length-drop : (n : ℕ) (xs : Bytes) → length (drop n xs) ≡ length xs - n
length-drop zero xs = omega arith
length-drop (suc n) [] = omega arith
length-drop (suc n) (x ∷ xs) = omega (arith, length-drop n xs)

decrypt_loop-suc :
    (pt_of : ℕ → ℕ → ℕ) (left : ℕ) (ct_ptr : Bytes) (previous : ℕ) {r : Bytes × Bytes × ℕ}
    → decrypt_loop pt_of (suc left) ct_ptr previous ≡ some r
    → (ct : ℕ) × (q : Bytes × Bytes × ℕ) × (from_bytes ct_ptr ≡ some ct)
      × (decrypt_loop pt_of left (drop 8 ct_ptr) ct ≡ some q)
      × (r ≡ (to_bytes (pt_of previous ct) ++ q.0, q.1, q.2))
unfolding decrypt_loop
decrypt_loop-suc pt_of left ct_ptr previous h = elim (Option-cases (from_bytes ct_ptr)) [
  | inl e ↦ absurd (ground arith)
  | inr (ct, e) ↦ elim (Option-cases (decrypt_loop pt_of left (drop 8 ct_ptr) ct)) [
    | inl e' ↦ absurd (ground arith)
    | inr (q, e') ↦ (ct, q, e, e', ground arith)
  ]
]

-- A buffer whose start is overwritten.
abbrev pub over : Bytes → Bytes → Bytes
over out content = out ++ drop (length out) content

over-drop :
    (out content : Bytes) → drop (length out + 8) (over out content) ≡ drop (length out + 8) content
over-drop out content =
    drop-append_more 8 out (drop (length out) content) ∙ drop-drop (length out) 8 content

store-over :
    (out bytes content : Bytes)
    → length out + length bytes ≤ length content
    → store (over out content) (length out) bytes ≡ some (over (out ++ bytes) content)
store-over out bytes content fits =
    store-append out bytes (drop (length out) content)
      (omega (arith, length-drop (length out) content))
    ∙ ap some (
        rw
          (
            drop-drop (length out) (length bytes) content,
            length-append out bytes,
            append_assoc out bytes (drop (length out + length bytes) content),
          )
          refl)

-- The place of the loop after `out` is written.
abbrev place : Bytes → Bytes → ℕ → Place
place out content previous = record {
  buffer = over out content;
  ct_ptr = length out + 8;
  dst = length out;
  ct_previous = previous;
}

decrypt_loop_in_place-step :
    (pt_of : ℕ → ℕ → ℕ) (left : ℕ) (out content : Bytes) (previous ct : ℕ)
    → from_bytes (drop (length out + 8) content) ≡ some ct
    → decrypt_loop_in_place pt_of (suc left) (place out content previous)
      ≡ decrypt_loop_in_place pt_of left (place (out ++ to_bytes (pt_of previous ct)) content ct)
unfolding decrypt_loop_in_place
decrypt_loop_in_place-step pt_of left out content previous ct h =
    let block = to_bytes (pt_of previous ct) in
    let loaded : from_bytes (drop (length out + 8) (over out content)) ≡ some ct =
      ap from_bytes (over-drop out content) ∙ h in
    let fits : length out + length block ≤ length content = omega (
      arith,
      from_bytes-length (drop (length out + 8) content) h,
      length-drop (length out + 8) content,
      length-to_bytes (pt_of previous ct),
    ) in
    let stored : store (over out content) (length out) block ≡ some (over (out ++ block) content) =
      store-over out block content fits in
    let ahead : length (out ++ block) ≡ length out + 8 =
      omega (arith, length-append out block, length-to_bytes (pt_of previous ct)) in
    rw (loaded, stored, ahead) refl

decrypt_loop_in_place-over :
    (pt_of : ℕ → ℕ → ℕ) (left : ℕ) (out content : Bytes) (previous : ℕ) {r : Bytes × Bytes × ℕ}
    → decrypt_loop pt_of left (drop (length out + 8) content) previous ≡ some r
    → (decrypt_loop_in_place pt_of left (place out content previous)
        ≡ some (place (out ++ r.0) content r.2))
      × (r.1 ≡ drop (length (out ++ r.0) + 8) content)
unfolding decrypt_loop decrypt_loop_in_place
decrypt_loop_in_place-over pt_of zero out content previous {r} h =
    let e : r ≡ ([], drop (length out + 8) content, previous) = ground arith in
    rw (e, append-nil out) (refl, refl)
decrypt_loop_in_place-over pt_of (suc left) out content previous {r} h =
    let (ct, q, loaded, loop, eq) =
      decrypt_loop-suc pt_of left (drop (length out + 8) content) previous h in
    let block = to_bytes (pt_of previous ct) in
    let ahead : length (out ++ block) + 8 ≡ length out + 8 + 8 =
      omega (arith, length-append out block, length-to_bytes (pt_of previous ct)) in
    let next : decrypt_loop pt_of left (drop (length (out ++ block) + 8) content) ct ≡ some q =
      rw (ahead, ← drop-drop (length out + 8) 8 content) loop in
    let (run, rest) = decrypt_loop_in_place-over pt_of left (out ++ block) content ct next in
    rw (eq, ← append_assoc out block q.0)
      (decrypt_loop_in_place-step pt_of left out content previous ct loaded ∙ run, rest)

length-take : (n : ℕ) (xs : Bytes) → length (take n xs) ≤ length xs
length-take zero xs = omega arith
length-take (suc n) [] = omega arith
length-take (suc n) (x ∷ xs) = omega (arith, length-take n xs)

copy_unpadded-length :
    (n padding : ℕ) {last : Bytes}
    → copy_unpadded (to_bytes n) padding ≡ some last
    → length last ≤ 8
unfolding copy_unpadded
copy_unpadded-length n padding {last} h = elim (Bool-cases (ltb 8 padding)) [
  | inl e ↦ absurd (ground arith)
  | inr e ↦
      let taken : take (8 - padding) (to_bytes n) ≡ last = ground arith in
      omega (arith, ap length taken, length-take (8 - padding) (to_bytes n), length-to_bytes n)
]

bind-some {ℓ κ} :
    {A : Type ℓ} {B : Type κ} (m : Option A) (f : A → Option B) {b : B}
    → (m >>= f) ≡ some b
    → (a : A) × (m ≡ some a) × (f a ≡ some b)
bind-some none f h = cc
bind-some (some a) f h = (a, refl, h)

-- The last block, stored behind the others.
last_stored :
    (out last content ptr : Bytes) {ct : ℕ}
    → ptr ≡ drop (length out + 8) content
    → from_bytes ptr ≡ some ct
    → length last ≤ 8
    → store (over out content) (length out) last ≡ some (over (out ++ last) content)
last_stored out last content ptr e loaded short =
    store-over out last content (
      omega
        (arith, from_bytes-length ptr loaded, ap length e, length-drop (length out + 8) content))

-- The number of rounds of the loop.
abbrev rounds_of : Stream → ℕ
rounds_of s = (s.data_length - 8 - 8 + 7) / 8

-- A run of `des_decrypt` on its steps, which all give a value.
module _ (s : Stream) (c : Context) (iv : ℕ) (r : Bytes × Bytes × ℕ) (ct : ℕ) (last : Bytes)
    (long : ltb s.data_length 8 ≡ false) (has_context : s.context ≡ some c)
    (has_iv : from_bytes s.content ≡ some iv)
    (loop : decrypt_loop (get_pt c.subkeys s.key_length) (rounds_of s) (drop 8 s.content) iv
      ≡ some r)
    (has_ct : from_bytes r.1 ≡ some ct) where
  abbrev final_block : Bytes
  final_block = to_bytes (get_pt c.subkeys s.key_length r.2 ct)

  abbrev shortened : Stream
  shortened = record s { data_length = s.data_length - 8 - get_or final_block 7 0 }

  decrypted_in_place :
      copy_unpadded final_block (get_or final_block 7 0) ≡ some last
      → des_decrypt_in_place s ≡ some (shortened, true, over (r.0 ++ last) s.content)
  unfolding des_decrypt_in_place
  decrypted_in_place copied =
      let (run, rest) =
        decrypt_loop_in_place-over (get_pt c.subkeys s.key_length) (rounds_of s) [] s.content iv
          loop in
      let loaded : from_bytes (drop (length r.0 + 8) (over r.0 s.content)) ≡ some ct =
        ap from_bytes (over-drop r.0 s.content ∙ sym rest) ∙ has_ct in
      let stored = last_stored r.0 last s.content r.1 rest has_ct (
        copy_unpadded-length (get_pt c.subkeys s.key_length r.2 ct) (get_or final_block 7 0)
          copied) in
      simp (long, has_context, has_iv, run, loaded, copied, stored)

-- Where `des_decrypt` writes its output over its data, it returns the same, and the buffer holds what it
-- would write elsewhere, with the bytes behind that as they were.
pub des_decrypt_in_place-des_decrypt :
    (s s' : Stream) (ok : Bool) {out : Bytes}
    → des_decrypt s ≡ some (s', ok, out)
    → des_decrypt_in_place s ≡ some (s', ok, over out s.content)
unfolding des_decrypt des_decrypt_in_place
des_decrypt_in_place-des_decrypt s s' ok {out} h = elim (Bool-cases (ltb s.data_length 8)) [
  | inl e ↦
      let parts : ◌≡◌ {A = Stream × Bool × Bytes} (s, false, []) (s', ok, out) = ground arith in
      rw e (ap (λ (r : Stream × Bool × Bytes). some (r.0, r.1, over r.2 s.content)) parts)
  | inr e ↦
      let (c, ec, h1) = bind-some s.context _ (rw e at h) in
      let (iv, ei, h2) = bind-some (from_bytes s.content) _ h1 in
      let (r, er, h3) =
        bind-some (decrypt_loop (get_pt c.subkeys s.key_length) (rounds_of s) (drop 8 s.content) iv)
          _ h2 in
      let (ct, et, h4) = bind-some (from_bytes r.1) _ h3 in
      let block = to_bytes (get_pt c.subkeys s.key_length r.2 ct) in
      let (last, el, h5) = bind-some (copy_unpadded block (get_or block 7 0)) _ h4 in
      decrypted_in_place s c iv r ct last e ec ei er et el ∙ ap (in_place s.content) h5
]
  where
    in_place : Bytes → Option (Stream × Bool × Bytes) → Option (Stream × Bool × Bytes)
    in_place content o = Option.map (λ (q : Stream × Bool × Bytes). (q.0, q.1, over q.2 content)) o
