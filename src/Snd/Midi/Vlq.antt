-- ===== src/Snd/Midi/Vlq.antt =====
-- The numbers of variable length of player/src/snd/midi.c, written and read back.
use lavender.Base.{
  ℕ, zero, suc, ◌+◌, ◌-◌, ◌*◌, ◌/◌, ◌%◌, ◌^◌, ◌≤◌, ◌<◌, ◌≡◌, refl, ap, ap₂, ◌∙◌, arith, Bool, true,
  false,
}
use lavender.Base.{[], ◌∷◌, ◌++◌, Option, some, Bytes, ◌==◌, bit_and, bit_or, not, u32, ◌<<<◌, ltb}
use mathlib.Core.List.{append_assoc}
use mathlib.Core.Path.{subst}
use native.Mathlib.Nat.{pow-suc}
use lavender.Bits.Fields.{bit_or-add, bit_and_mask, check_below, check_below_sound}
use lavender.Cipher.Des.Stream.{◌>>=◌}
use lavender.Snd.Buf.{SndBuffer, sndbuf_getc}
use lavender.Snd.Midi.{restore_loop, clear_last, restore_vlq, vlq_loop, check_count, midi_read_vlq}

-- A buffer that hands out some bytes, and what is left of it then.
pub data Delivers : SndBuffer → Bytes → SndBuffer → Type 0 where
  empty : {b : SndBuffer} → Delivers b [] b
  byte :
      {b b' b'' : SndBuffer} (c : ℕ) {bytes : Bytes}
      → sndbuf_getc b ≡ some (some c, b')
      → Delivers b' bytes b''
      → Delivers b (c ∷ bytes) b''

first_byte :
    {b b'' : SndBuffer} {c : ℕ} {bytes : Bytes}
    → Delivers b (c ∷ bytes) b''
    → (b' : SndBuffer) × (sndbuf_getc b ≡ some (some c, b')) × Delivers b' bytes b''
first_byte (byte {b' = b'} c run rest) = (b', run, rest)

nothing_left : {b b'' : SndBuffer} → Delivers b [] b'' → b ≡ b''
nothing_left empty = refl

small_power : (i : ℕ) → i < 4 → 128 ^ i ≤ 128 ^ 3
small_power zero h = omega arith
small_power (suc zero) h = omega arith
small_power (suc (suc zero)) h = omega arith
small_power (suc (suc (suc zero))) h = omega arith
small_power (suc (suc (suc (suc i)))) h = absurd (omega arith)

low_bits : (a : ℕ) → bit_and a 0x7F ≡ a % 128
low_bits a = bit_and_mask 7 a

marked : (v : ℕ) → bit_or 0x80 (bit_and v 0x7F) ≡ 128 + v % 128
marked v = ap (bit_or 0x80) (low_bits v) ∙ bit_or-add 7 1 (v % 128) (omega arith)

false_of_not : (b : Bool) → not b ≡ true → b ≡ false
false_of_not true h = cc
false_of_not false h = refl

high_bit : (x : ℕ) → x < 128 → (bit_and (128 + x) 0x80 == 0) ≡ false
unfolding check_below
high_bit x h =
    false_of_not (bit_and (128 + x) 0x80 == 0)
      (check_below_sound 128 (λ (y : ℕ). not (bit_and (128 + y) 0x80 == 0)) x refl h)

no_high_bit : (x : ℕ) → x < 128 → (bit_and x 0x80 == 0) ≡ true
unfolding check_below
no_high_bit x h = check_below_sound 128 (λ (y : ℕ). bit_and y 0x80 == 0) x refl h

shifted :
    (out x : ℕ) → out * 128 + 128 ≤ 2 ^ 32 → x < 128 → bit_or (u32 (out <<< 7)) x ≡ out * 128 + x
shifted out x room h =
    let small : u32 (out <<< 7) ≡ out * 2 ^ 7 = omega arith in
    ap (λ (k : ℕ). bit_or k x) small ∙ bit_or-add 7 out x h

-- A round that goes on, and one that ends.
vlq_loop-more :
    (rounds count out x : ℕ) (b b' : SndBuffer)
    → x < 128
    → out * 128 + 128 ≤ 2 ^ 32
    → sndbuf_getc b ≡ some (some (128 + x), b')
    → vlq_loop (suc rounds) count out b ≡ vlq_loop rounds (suc count) (out * 128 + x) b'
unfolding vlq_loop
vlq_loop-more rounds count out x b b' h room run =
    let low : bit_and (128 + x) 0x7F ≡ x = low_bits (128 + x) ∙ omega arith in
    rw (run, vlq_loop, high_bit x h, low, shifted out x room h) refl

vlq_loop-last :
    (rounds count out x : ℕ) (b b' : SndBuffer)
    → x < 128
    → out * 128 + 128 ≤ 2 ^ 32
    → sndbuf_getc b ≡ some (some x, b')
    → vlq_loop (suc rounds) count out b ≡ some (some (suc count, out * 128 + x), b')
unfolding vlq_loop
vlq_loop-last rounds count out x b b' h room run =
    let low : bit_and x 0x7F ≡ x = low_bits x ∙ omega arith in
    rw (run, vlq_loop, no_high_bit x h, low, shifted out x room h) refl

-- The room that a value takes beside those before it.
scaled : (out i : ℕ) → out * 128 ^ suc i ≡ 128 * (out * 128 ^ i)
scaled out i = omega (arith, ap (λ (t : ℕ). out * t) (pow-suc 128 i))

vlq_loop-restore_loop :
    (i rounds count out v : ℕ) (rest : Bytes) {b b'' : SndBuffer}
    → v < 128 ^ i
    → out * 128 ^ i + 128 ^ i ≤ 2 ^ 32
    → Delivers b (restore_loop i v ++ rest) b''
    → (b' : SndBuffer) × Delivers b' rest b''
      × (vlq_loop (i + rounds) count out b ≡ vlq_loop rounds (count + i) (out * 128 ^ i + v) b')
unfolding restore_loop
vlq_loop-restore_loop zero rounds count out v rest {b} fits room delivers =
    let v0 : v ≡ 0 = omega arith in
    let n : 0 + rounds ≡ rounds = omega arith in
    let c : count ≡ count + 0 = omega arith in
    let o : out ≡ out * 128 ^ 0 + v = omega arith in (b, delivers, rw (n, ← c, ← o) refl)
vlq_loop-restore_loop (suc i) rounds count out v rest {b} {b''} fits room delivers =
    let p = 128 ^ i in
    let split = append_assoc (restore_loop i (v / 128)) (bit_or 0x80 (bit_and v 0x7F) ∷ []) rest in
    let (b1, delivers1, run) =
      vlq_loop-restore_loop i (suc rounds) count out (v / 128) (bit_or 0x80 (bit_and v 0x7F) ∷ rest)
        (omega (arith, pow-suc 128 i)) (omega (arith, pow-suc 128 i, scaled out i))
        (subst (λ (t : Bytes). Delivers b t b'') split delivers) in
    let (b2, got_it, delivers2) = first_byte delivers1 in
    let value = out * p + v / 128 in
    let more =
      vlq_loop-more rounds (count + i) value (v % 128) b1 b2 (omega arith)
        (omega (arith, pow-suc 128 i, scaled out i))
        (got_it ∙ ap (λ (c : ℕ). some (some c, b2)) (marked v)) in
    let n : suc i + rounds ≡ i + suc rounds = omega arith in
    let c : suc (count + i) ≡ count + suc i = omega arith in
    let o : value * 128 + v % 128 ≡ out * 128 ^ suc i + v = omega (arith, scaled out i) in
    (
      b2,
      delivers2,
      ap (λ (k : ℕ). vlq_loop k count out b) n
          ∙ run
          ∙ more
          ∙ ap₂ (λ (k t : ℕ). vlq_loop rounds k t b2) c o,
    )

clear_last-append :
    (bytes : Bytes) (x : ℕ) → clear_last (bytes ++ x ∷ []) ≡ bytes ++ bit_and x 0x7F ∷ []
unfolding clear_last
clear_last-append [] x = refl
clear_last-append (a ∷ []) x = refl
clear_last-append (a ∷ b ∷ bytes) x = ap (λ (t : Bytes). a ∷ t) (clear_last-append (b ∷ bytes) x)

midi_read_vlq-ended :
    (value size : ℕ) (b b1 b2 : SndBuffer)
    → size < 4
    → 128 ^ size ≤ 128 ^ 3
    → value / 128 < 128 ^ size
    → vlq_loop 5 0 0 b ≡ vlq_loop (suc (4 - size)) (0 + size) (0 * 128 ^ size + value / 128) b1
    → sndbuf_getc b1 ≡ some (some (value % 128), b2)
    → midi_read_vlq b ≡ some (some (suc size, value), b2)
unfolding midi_read_vlq check_count
midi_read_vlq-ended value size b b1 b2 short room fits run got_it =
    let ended =
      vlq_loop-last (4 - size) (0 + size) (0 * 128 ^ size + value / 128) (value % 128) b1 b2
        (omega arith) (omega arith) got_it in
    let count : suc (0 + size) ≡ suc size = omega arith in
    let whole : (0 * 128 ^ size + value / 128) * 128 + value % 128 ≡ value = omega arith in
    let test : ltb 4 (suc size) ≡ false = ground arith in
    ap with_count (run ∙ ended ∙ ap₂ (λ (k v : ℕ). some (some (k, v), b2)) count whole)
    ∙ rw test refl
  where
    with_count : Option (Option (ℕ × ℕ) × SndBuffer) → Option (Option (ℕ × ℕ) × SndBuffer)
    with_count o = o >>= (λ r. some (check_count r.0, r.1))

-- `midi_read_vlq` reads back what `restore_vlq` writes, the value and the number of bytes, where these are one to four and
-- the value has room in them: from a buffer that hands them out, up to the byte behind them.
pub midi_read_vlq-restore_vlq :
    (value size : ℕ) (b b' : SndBuffer)
    → size < 4
    → value < 128 ^ suc size
    → Delivers b (restore_vlq value (suc size)) b'
    → midi_read_vlq b ≡ some (some (suc size, value), b')
unfolding restore_vlq restore_loop
midi_read_vlq-restore_vlq value size b b' short fits delivers =
    let last : bit_and (bit_or 0x80 (bit_and value 0x7F)) 0x7F ≡ value % 128 =
      ap (λ (x : ℕ). bit_and x 0x7F) (marked value) ∙ low_bits (128 + value % 128) ∙ omega arith in
    let bytes : restore_vlq value (suc size) ≡ restore_loop size (value / 128) ++ value % 128 ∷ [] =
      clear_last-append (restore_loop size (value / 128)) (bit_or 0x80 (bit_and value 0x7F))
      ∙ ap (λ (x : ℕ). restore_loop size (value / 128) ++ x ∷ []) last in
    let room : 128 ^ size ≤ 128 ^ 3 = small_power size short in
    let (b1, delivers1, run) =
      vlq_loop-restore_loop size (suc (4 - size)) 0 0 (value / 128) (value % 128 ∷ [])
        (omega (arith, pow-suc 128 size)) (omega (arith, room))
        (subst (λ (t : Bytes). Delivers b t b') bytes delivers) in
    let (b2, got_it, delivers2) = first_byte delivers1 in
    let rounds : 5 ≡ size + suc (4 - size) = omega arith in
    let below : value / 128 < 128 ^ size = omega (arith, pow-suc 128 size) in
    midi_read_vlq-ended value size b b1 b2 short room below
      (ap (λ (k : ℕ). vlq_loop k 0 0 b) rounds ∙ run) got_it
    ∙ ap (λ (t : SndBuffer). some (some (suc size, value), t)) (nothing_left delivers2)
