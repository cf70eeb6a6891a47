-- ===== src/Enc/Content/Streams.antt =====
-- What `enc_prepare`, `enc_verify`, `enc_decrypt` and `enc_free` do with content.
use lavender.Base.{
  ℕ, zero, suc, ◌+◌, ◌-◌, ◌*◌, ◌/◌, ◌%◌, ◌^◌, ◌≤◌, ◌≡◌, refl, ap, sym, ◌∙◌, Bool, true, false, not,
}
use lavender.Base.{
  Bytes, [], ◌++◌, Option, none, some, All, arith, ltb, ◌==◌, ◌⊎◌, inl, inr, Bool-cases,
  Option-cases,
}
use lavender.Base.{length, drop, bit_and, ==_iff, ◌&&◌}
use lavender.Bits.Fields.{bit_and_mask}
use lavender.Cipher.Stream.{Stream, Context}
use lavender.Cipher.Des.Stream.{des_allocate, des_free}
use lavender.Cipher.Des.Stream.Whole.{IsByte, IsWhole, refused, accepted, whole-Verified}
use lavender.Cipher.Des.{generate_subkeys}
use lavender.Cipher.Xor.{xor_loop, xor_decrypt}
use lavender.Cipher.Xor.Laws.{IsReadable, xor_verify-xor_decrypt}
use lavender.Cipher.InPlace.XorLaws.{xor_decrypt_in_place-xor_decrypt, xor_loop-suc}
use lavender.Cipher.InPlace.DesLaws.{over, des_decrypt_in_place-des_decrypt}
use lavender.Enc.Content.Steps.{from_bytes-some}
use lavender.Base.{length-drop}
use lavender.Enc.{
  EncCipher, xor, des, tdes, EncStream, xor_impl, des_impl, enc_prepare, allocate, enc_verify,
  enc_decrypt, enc_free, Impl, impl_of,
}
use lavender.Enc.Content.{key_size}
use lavender.Zip.Crc.{calculate_crc}

-- A stream is refused, or given a context with an empty cache.
pub data Allocated (s : Stream) (r : Option (Stream × Bool)) : Type 0 where
  failed : (s' : Stream) → r ≡ some (s', false) → Allocated s r
  given :
      (k : ℕ) (c : Context)
      → r ≡ some (record s { context = some c }, true)
      → c.at_pos ≡ 0
      → s.data_length ≡ 8 * (2 + k)
      → Allocated s r

whole_blocks : (n : ℕ) → (bit_and n 7 == 0) ≡ true → 16 ≤ n → (k : ℕ) × (n ≡ 8 * (2 + k))
whole_blocks n h long =
    let zero : n % 2 ^ 3 ≡ 0 = sym (bit_and_mask 3 n) ∙ (==_iff (bit_and n 7) 0).0 h in
    (n / 8 - 2, omega arith)

pub des_allocate-Allocated :
    (memory : Bool) (s : Stream)
    → (s.key_length ≡ 8) ⊎ (s.key_length ≡ 16)
    → 16 ≤ length s.key
    → Allocated s (des_allocate memory s)
unfolding des_allocate
des_allocate-Allocated memory s size room =
    let known : (not (s.key_length == 8) && not (s.key_length == 16)) ≡ false = elim size [
      | inl e ↦ rw e refl
      | inr e ↦ rw e refl
    ] in
    elim (Bool-cases (bit_and s.data_length 7 == 0)) [
      | inr odd ↦ failed s (rw (known, odd) refl)
      | inl whole ↦ elim (Bool-cases (ltb s.data_length 16)) [
        | inl short ↦ failed s (rw (known, whole, short) refl)
        | inr long ↦ elim (Bool-cases memory) [
          | inr full ↦ failed (record s { context = none }) (rw (known, whole, long, full) refl)
          | inl given_memory ↦
              let (k, blocks) = whole_blocks s.data_length whole (ground arith) in
              let (first, loaded) = from_bytes-some s.key (omega arith) in
              let (second, more) =
                from_bytes-some (drop 8 s.key) (omega (arith, length-drop 8 s.key)) in
              elim (Bool-cases (ltb 8 s.key_length)) [
                | inl two ↦
                    given k
                      (record {
                        subkeys = generate_subkeys first ++ generate_subkeys second;
                        at_pos = 0;
                        at_pt = 0;
                      })
                      (rw (known, whole, long, given_memory, loaded, two, more) refl) refl blocks
                | inr one ↦
                    given k
                      (record { subkeys = generate_subkeys first ++ []; at_pos = 0; at_pt = 0 })
                      (rw (known, whole, long, given_memory, loaded, one) refl) refl blocks
              ]
        ]
      ]
    ]

-- How many bytes are decrypted of so many.
abbrev pub Fits : Impl → ℕ → ℕ → Type 0
Fits xor_impl n size = n ≡ size
Fits des_impl n size = n + 8 ≤ size

-- What `enc_verify`, `enc_decrypt` and `enc_free` do with a stream that has its key: the checksum is refused,
-- or it is that of the bytes that `enc_decrypt` leaves at the start of the buffer.
pub data Keyed (impl : Impl) (e : EncStream) (crc : ℕ) : Type 0 where
  refused_key :
      (f : EncStream × Bool)
      → enc_verify e crc ≡ some false
      → enc_free e ≡ some f
      → Keyed impl e crc
  right_key :
      (d : EncStream) (f : EncStream × Bool) (out : Bytes)
      → enc_verify e crc ≡ some true
      → enc_decrypt e ≡ some (d, true, over out e.stream.content)
      → enc_free d ≡ some f
      → f.0.stream.data_length ≡ length out
      → Fits impl (length out) e.stream.data_length
      → calculate_crc out ≡ crc
      → Keyed impl e crc

length-xor_loop :
    (s : Stream) (left i : ℕ) {out : Bytes} → xor_loop s left i ≡ some out → length out ≡ left
unfolding xor_loop
length-xor_loop s zero i h = let e : [] ≡ _ = ground arith in sym (ap length e)
length-xor_loop s (suc left) i h =
    let (b, rest, byte, loop, e) = xor_loop-suc s left i h in
    ap length e ∙ ap suc (length-xor_loop s left (i + 1) loop)

xor-Keyed :
    (s : Stream) (crc : ℕ)
    → IsReadable s
    → Keyed xor_impl (record { stream = s; impl = some xor_impl }) crc
unfolding enc_verify enc_decrypt enc_free xor_decrypt
xor-Keyed s crc ok =
    let (out, run, checked) = xor_verify-xor_decrypt s ok crc in
    let size = length-xor_loop s s.data_length 0 run in
    let buffer = xor_decrypt_in_place-xor_decrypt s ok.has_data run in
    elim (Bool-cases (crc == calculate_crc out)) [
      | inr differ ↦ refused_key _ (rw differ at checked) refl
      | inl same ↦
          right_key (record { stream = s; impl = some xor_impl }) _ out (rw same at checked)
            (rw (buffer, size) refl) refl (sym size) size
            (sym ((==_iff crc (calculate_crc out)).0 same))
    ]

pub des_free-data_length : (t : Stream) → (des_free t).0.data_length ≡ t.data_length
unfolding des_free
des_free-data_length t = elim (Option-cases t.context) [
  | inl e ↦ rw e refl
  | inr (c, e) ↦ rw e refl
]

des-Keyed :
    {k : ℕ} {c : Context} (s : Stream) (crc : ℕ)
    → IsWhole k c s
    → Keyed des_impl (record { stream = s; impl = some des_impl }) crc
unfolding enc_verify enc_decrypt enc_free des_free
des-Keyed s crc w = elim (whole-Verified s crc w) [
  | refused checked ↦ refused_key _ checked refl
  | accepted s' out checked run size room same ↦
      right_key (record { stream = s'; impl = some des_impl }) _ out checked
        (rw (des_decrypt_in_place-des_decrypt s s' true run) refl) refl
        (des_free-data_length s' ∙ size) room same
]

-- What `enc_prepare` gives over content and a key: a refusal, or a stream over both with its key.
pub data Prepared (impl : Impl) (content : Bytes) (size crc : ℕ) (r : Option (EncStream × Bool))
    : Type 0 where
  not_prepared : (e : EncStream) → r ≡ some (e, false) → Prepared impl content size crc r
  prepared :
      (e : EncStream)
      → r ≡ some (e, true)
      → e.stream.content ≡ content
      → e.stream.data_length ≡ size
      → Keyed impl e crc
      → Prepared impl content size crc r

module _ (memory : Bool) (e : EncStream) (content key : Bytes) (size crc : ℕ)
    (bytes : All IsByte content) (whole : length content ≡ size) (room : length key ≡ 16) where
  -- The stream before its context is made.
  bare : Option Context → ℕ → Stream
  bare context key_length = record {
    content = content;
    data_length = size;
    key = key;
    key_length = key_length;
    context = context;
  }

  des-Prepared :
      (key_length : ℕ)
      → (key_length ≡ 8) ⊎ (key_length ≡ 16)
      → Prepared des_impl content size crc
          (allocate memory des_impl (bare e.stream.context key_length))
  unfolding allocate bare
  des-Prepared key_length known =
      let s = bare e.stream.context key_length in
      elim (des_allocate-Allocated memory s known (omega arith)) [
        | failed s' run ↦ not_prepared (record { stream = s'; impl = some des_impl }) (rw run refl)
        | given k c run fresh blocks ↦
            let keyed = record s { context = some c } in
            prepared (record { stream = keyed; impl = some des_impl }) (rw run refl) refl refl
              (des-Keyed keyed crc (record {
                bytes = bytes;
                length_is = whole ∙ blocks;
                data_length_is = blocks;
                context_is = refl;
                fresh = fresh;
              }))
      ]

  pub enc_prepare-Prepared :
      (cipher : EncCipher)
      → Prepared
          (impl_of cipher)
          content
          size
          crc
          (enc_prepare memory e cipher content size key (key_size cipher))
  unfolding enc_prepare allocate bare
  enc_prepare-Prepared xor =
      let keyed = bare none 6 in
      prepared (record { stream = keyed; impl = some xor_impl }) refl refl refl
        (xor-Keyed keyed crc
          (record { has_data = omega arith; has_key = omega arith; key_fits = omega arith }))
  enc_prepare-Prepared des = des-Prepared 8 (inl refl)
  enc_prepare-Prepared tdes = des-Prepared 16 (inr refl)
