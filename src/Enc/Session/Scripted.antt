-- ===== src/Enc/Session/Scripted.antt =====
-- A script that gives the key of another one, from the provider of the caller to the text.
use lavender.Base.{ℕ, zero, suc, ◌%◌, ◌^◌, ◌≤◌, ◌<◌, ◌≡◌, refl, ap, ◌∙◌, true, false}
use lavender.Base.{
  Bytes, List, [], ◌∷◌, ◌++◌, Option, none, some, All, arith, inr, length, take, drop, bit_and,
}
use lavender.Zip.Crc.{calculate_crc}
use lavender.Cipher.Des.Stream.{to_bytes}
use lavender.Cipher.Des.Stream.Blocks.{IsBlock, bytes_of}
use lavender.Cipher.Des.Stream.Whole.{IsByte}
use lavender.Cipher.Des.Stream.Encrypt.{cbc_encrypt, text_of}
use lavender.Enc.{tdes, State, verify, complete, Status, success, failure, continue, EncContext}
use lavender.Enc.Content.{Platform, enc_prov, key_size, obtain_key, decrypt_content, use_key}
use lavender.Enc.Content.Opens.{schedule, use_key-cbc_encrypt}
use lavender.Enc.Caller.{caller_transform}
use lavender.Enc.Caller.Laws.{hex, caller_transform-hex}
use lavender.Enc.Session.{Wizard, enc_handle, handle_state, handle_verified, require_success}

-- `__enc_caller_proc` stands first in `PROVIDER`.
pub record HasCaller {W : Type 0} (p : Platform W) : Type 0 where
  pub transforms :
      (enc enc' : EncContext) (status : Status) (w : W)
      → caller_transform enc ≡ some (status, enc')
      → (p.providers 0).transform enc w ≡ (status, enc', w)

to_bytes-All : (n : ℕ) (rest : Bytes) → All IsByte rest → All IsByte (to_bytes n ++ rest)
unfolding to_bytes
to_bytes-All n rest h = (
  omega arith,
  (
    omega arith,
    (omega arith, (omega arith, (omega arith, (omega arith, (omega arith, (omega arith, h)))))),
  ),
)

drop-whole : (n : ℕ) (xs : Bytes) → length xs ≡ n → drop n xs ≡ []
drop-whole zero [] h = refl
drop-whole zero (x ∷ xs) h = absurd (omega arith)
drop-whole (suc n) [] h = refl
drop-whole (suc n) (x ∷ xs) h = drop-whole n xs (omega arith)

module _ {W : Type 0} (p : Platform W) (caller : HasCaller p) (enc : EncContext)
    (first second : ℕ) where
  -- The context with the key that the script spells.
  keyed : EncContext
  keyed = record enc { key = to_bytes first ++ to_bytes second }

  obtained :
      (w : W) (rest : Bytes)
      → enc.cipher ≡ tdes
      → bit_and enc.provider 0xFF ≡ 0
      → enc.parameter ≡ hex (to_bytes first ++ to_bytes second) ++ rest
      → length enc.key ≡ 16
      → obtain_key p false enc w ≡ (none, keyed, w)
  unfolding obtain_key keyed to_bytes
  obtained w rest is first_provider given room =
      let key = to_bytes first ++ to_bytes second in
      let bytes : All IsByte key =
        to_bytes-All first (to_bytes second) (to_bytes-All second [] tt) in
      let size : length key ≡ key_size enc.cipher = rw is refl in
      let run = caller_transform-hex enc key rest (inr is) size bytes given in
      let all : drop (key_size enc.cipher) enc.key ≡ [] =
        drop-whole (key_size enc.cipher) enc.key (rw is room) in
      let whole : record enc { key = key ++ drop (key_size enc.cipher) enc.key } ≡ keyed =
        ap (λ (t : Bytes). record enc { key = key ++ t }) all in
      let transformed : (enc_prov p enc).transform enc w ≡ (success 0, keyed, w) =
        ap (λ (n : ℕ). (p.providers n).transform enc w) first_provider
        ∙ caller.transforms enc keyed (success 0) w
            (run ∙ ap (λ (t : EncContext). some (success 0, t)) whole) in
      ap chosen transformed
    where
      chosen : Status × EncContext × W → Option Status × EncContext × W
      chosen r = elim r.0 [
        | success n ↦ (none, r.1, r.2)
        | failure e ↦ (some (failure e), r.1, p.encui_exit r.2)
      ]

-- A triple DES script whose caller spells the right key, in hexadecimal digits of lower case, is opened by one step
-- of `enc_handle` from ENCS_VERIFY: the session is complete, and the content starts with the text that CBC
-- encryption was given and has its size. It holds where `malloc` gives memory, for a text padded by at most eight
-- bytes.
pub enc_handle-cbc_encrypt :
    {W : Type 0} (p : Platform W) (z : Wizard W) (enc : EncContext) (w : W) (rest : Bytes)
    (first second iv : ℕ) (ps : List ℕ) (q : ℕ)
    → HasCaller p
    → p.memory ≡ true
    → enc.state ≡ verify
    → enc.cipher ≡ tdes
    → bit_and enc.provider 0xFF ≡ 0
    → length enc.key ≡ 16
    → first < 2 ^ 64
    → second < 2 ^ 64
    → enc.parameter ≡ hex (to_bytes first ++ to_bytes second) ++ rest
    → All IsBlock (iv ∷ ps ++ q ∷ [])
    → q % 256 ≤ 8
    → enc.content
      ≡ bytes_of (
          iv
          ∷ cbc_encrypt (schedule enc.cipher first second) (key_size enc.cipher) iv (ps ++ q ∷ []))
    → length enc.content ≡ enc.size
    → enc.size < 2 ^ 31
    → enc.crc32 ≡ calculate_crc (text_of ps q)
    → (opened : EncContext) × (w' : W) × (enc_handle p z enc w ≡ some (continue, opened, w'))
      × (opened.state ≡ complete)
      × (take opened.size opened.content ≡ text_of ps q)
      × (opened.size ≡ length (text_of ps q))
unfolding enc_handle handle_state handle_verified require_success decrypt_content keyed
enc_handle-cbc_encrypt {W} p z enc w rest first second iv ps q caller memory at is provider room
      first_ok second_ok given blocks pad made whole below sum =
    let enc' = record enc { key = to_bytes first ++ to_bytes second } in
    let (opened, w', run, text, size) =
      use_key-cbc_encrypt p false enc' w first second iv ps q memory (inr is) first_ok second_ok
        refl blocks pad made whole below sum in
    let key = obtained p caller enc first second w rest is provider given room in
    let decrypted : decrypt_content p enc false w ≡ some (success 0, opened, w') =
      ap used key ∙ run in
    let step : handle_state p z verify enc w
        ≡ some (continue, record opened { state = complete }, w') =
      rw decrypted refl in
    (
      record opened { state = complete },
      w',
      ap (λ (s : State). handle_state p z s enc w) at ∙ step,
      refl,
      text,
      size,
    )
  where
    used : Option Status × EncContext × W → Option (Status × EncContext × W)
    used r = elim r.0 [ none ↦ use_key p false r.1 r.2 | some s ↦ some (s, r.1, r.2) ]
