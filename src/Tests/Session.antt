-- ===== src/Tests/Session.antt =====
-- Concrete runs of player/src/enc/enc.c and of the ciphers in place.
use lavender.Base.{
  ℕ, ◌≡◌, refl, ap, sym, ◌∙◌, Bool, true, false, List, [], ◌∷◌, ◌++◌, ◌⊎◌, inl, inr,
}
use lavender.Base.{
  some, none, Bytes, codes, length, take, arith, ◌==◌, if◌then◌else◌, ==_iff, Bool-cases,
}
use lavender.Zip.Crc.{calculate_crc}
use lavender.Cipher.Stream.{Stream, Context}
use lavender.Cipher.Xor.{xor_decrypt, xor_loop, xor_byte, remainder}
use lavender.Cipher.Des.{generate_subkeys}
use lavender.Cipher.Des.Stream.{to_bytes}
use lavender.Cipher.Des.Stream.Blocks.{bytes_of}
use lavender.Cipher.Des.Stream.Encrypt.{cbc_encrypt, text_of, des_decrypt-cbc_encrypt}
use lavender.Cipher.InPlace.{xor_decrypt_in_place, des_decrypt_in_place}
use lavender.Cipher.InPlace.XorLaws.{xor_decrypt_in_place-xor_decrypt}
use lavender.Cipher.InPlace.DesLaws.{over, des_decrypt_in_place-des_decrypt}
use lavender.Base.{Option, none}
use lavender.Enc.{des, tdes, Status, success, failure, enosys, EncContext}
use lavender.Enc.Keys.{KeyStore, enc_load_key, enc_save_key}
use lavender.Enc.Keys.RoundTrip.{IsKeyStore, enc_load_key-enc_save_key}
use lavender.Enc.Content.{Provider, Platform, use_key, cleared}
use lavender.Enc.Content.Laws.{Refused, use_key-Opened}
use lavender.Enc.Content.Opened.{SameContent, Opened}
use lavender.Enc.Content.Opens.{schedule, use_key-cbc_encrypt}
use lavender.Enc.Session.{Wizard, enc_handle}
use lavender.Enc.Session.Ready.{IsReady, IsPlatform}
use lavender.Enc.Session.Laws.{Handled, enc_handle-Handled}
use lavender.Enc.{verify, complete, continue}
use lavender.Enc.Caller.{caller_transform}
use lavender.Enc.Caller.Laws.{hex}
use lavender.Enc.Session.Scripted.{HasCaller, enc_handle-cbc_encrypt}

-- A store of one state.
abbrev pub slot : KeyStore Bytes
slot = record {
  machine_id = λ w. some (codes "machine identity");
  load_state = λ w name buffer. if length buffer == length w then (length w, w) else (0, buffer);
  save_state = λ w name bytes. (true, bytes);
}

slot-IsKeyStore : IsKeyStore slot
slot-IsKeyStore = record {
  loads = λ w w' name bytes buffer h e.
      let saved : bytes ≡ w' = ap (λ (r : Bool × Bytes). r.1) h in
      let same : (length buffer == length w') ≡ true =
        (==_iff (length buffer) (length w')).1 (e ∙ ap length saved) in
      rw (saved, same) refl;
  same_machine = λ w w' name bytes h. refl;
}

saved_key :
    enc_save_key slot [] 7 (codes "sekret") ≡ (true, (enc_save_key slot [] 7 (codes "sekret")).1)
unfolding enc_save_key
saved_key = refl

enc_load_key-enc_save_key_example :
    enc_load_key slot (enc_save_key slot [] 7 (codes "sekret")).1 7 (codes "buffer")
    ≡ (true, codes "sekret")
enc_load_key-enc_save_key_example =
    enc_load_key-enc_save_key slot [] (enc_save_key slot [] 7 (codes "sekret")).1 7 (codes "sekret")
      (codes "buffer") slot-IsKeyStore refl saved_key

abbrev three : Stream
three = record {
  content = 97 ∷ 98 ∷ 99 ∷ 100 ∷ [];
  data_length = 3;
  key = 1 ∷ 2 ∷ [];
  key_length = 2;
  context = none;
}

three_run : xor_decrypt three ≡ some (96 ∷ 96 ∷ 98 ∷ [])
unfolding xor_decrypt xor_loop xor_byte remainder
three_run = refl

xor_decrypt_in_place-xor_decrypt_example :
    xor_decrypt_in_place three ≡ some ((96 ∷ 96 ∷ 98 ∷ []) ++ 100 ∷ [])
xor_decrypt_in_place-xor_decrypt_example =
    xor_decrypt_in_place-xor_decrypt three (omega arith) three_run

abbrev subkeys : List ℕ
subkeys = generate_subkeys 0x133457799BBCDFF1 ++ []

-- An initial vector, a full block and one with three bytes of text, encrypted.
abbrev sealed : Bytes
sealed = bytes_of (
    0x1122334455667788
    ∷ cbc_encrypt subkeys 8 0x1122334455667788 (0x6C6176656E646572 ∷ 0x6162630000000005 ∷ []))

sealed_size : length sealed ≡ 24
unfolding bytes_of cbc_encrypt to_bytes
sealed_size = refl

abbrev context : Context
context = record { subkeys = subkeys; at_pos = 0; at_pt = 0 }

abbrev encrypted : Stream
encrypted = record {
  content = sealed;
  data_length = 24;
  key = [];
  key_length = 8;
  context = some context;
}

abbrev pub text : Bytes
text = text_of (0x6C6176656E646572 ∷ []) 0x6162630000000005

des_decrypt_in_place-des_decrypt_example :
    des_decrypt_in_place encrypted
    ≡ some (record encrypted { data_length = 11 }, true, over text sealed)
des_decrypt_in_place-des_decrypt_example =
    des_decrypt_in_place-des_decrypt encrypted (record encrypted { data_length = 11 }) true
      (des_decrypt-cbc_encrypt encrypted context 0x1122334455667788 (0x6C6176656E646572 ∷ [])
        0x6162630000000005 (omega arith) (omega arith) refl refl (sym sealed_size))

-- A provider that leaves the key as it is.
abbrev pub provider : Provider Bytes
provider = record {
  initialize_key = λ enc w. (success 0, enc, w);
  transform = λ enc w. (success 0, enc, w);
  error_string = λ enc. failure enosys;
  storage_policy = λ enc w. success 0;
}

abbrev pub platform : Platform Bytes
platform = record { keys = slot; providers = λ n. provider; encui_exit = λ w. w; memory = true }

same : (enc : EncContext) → SameContent enc enc
same enc = record {
  cipher = refl;
  provider = refl;
  parameter = refl;
  content = refl;
  size = refl;
  crc32 = refl;
  key_room = refl;
}

pub platform-IsPlatform : IsPlatform platform
platform-IsPlatform = record {
  load_size = λ w name buffer. sized w buffer;
  transforms = λ n enc w. same enc;
  initializes = λ n enc w. same enc;
}
  where
    sized : (w buffer : Bytes) → length (slot.load_state w [] buffer).1 ≡ length buffer
    sized w buffer = elim (Bool-cases (length buffer == length w)) [
      | inl e ↦ rw e (sym ((==_iff (length buffer) (length w)).0 e))
      | inr e ↦ rw e refl
    ]

abbrev crypted : EncContext
crypted = cleared tdes 0 [] (codes "sixteen and eight bytes.") 24 0xCBF43926

use_key-Opened_example :
    (r : Status × EncContext × Bytes) × (use_key platform true crypted [] ≡ some r)
    × (Refused crypted r ⊎ ((r.0 ≡ success 0) × Opened crypted r.1))
use_key-Opened_example =
    use_key-Opened platform true crypted [] (omega arith) refl (omega arith) refl

abbrev keyed : EncContext
keyed = record (cleared des 0 [] sealed 24 (calculate_crc text)) {
  key = to_bytes 0x133457799BBCDFF1 ++ to_bytes 0;
}

use_key-cbc_encrypt_example :
    (opened : EncContext) × (w' : Bytes) × (use_key platform false keyed []
      ≡ some (success 0, opened, w'))
    × (take opened.size opened.content ≡ text)
    × (opened.size ≡ length text)
use_key-cbc_encrypt_example =
    use_key-cbc_encrypt platform false keyed [] 0x133457799BBCDFF1 0 0x1122334455667788
      (0x6C6176656E646572 ∷ []) 0x6162630000000005 refl (inl refl) (omega arith) (omega arith) refl
      (omega arith) (omega arith) refl sealed_size (omega arith) refl

abbrev pub wizard : Wizard Bytes
wizard = record {
  incomplete = 2;
  handle = λ enc w. (2, enc, w);
  get_page = λ enc w. 0;
  set_page = λ enc w page. (enc, w);
}

crypted-IsReady : IsReady crypted
crypted-IsReady = record { bytes = omega arith; whole = refl; below = omega arith; key_room = refl }

enc_handle-Handled_example :
    (r : Status × EncContext × Bytes) × (enc_handle platform wizard crypted [] ≡ some r)
    × Handled crypted r
enc_handle-Handled_example =
    enc_handle-Handled platform platform-IsPlatform wizard crypted [] crypted-IsReady (inl refl)

-- A fault would be an error of this provider.
abbrev pub answer : EncContext → Bytes → Option (Status × EncContext) → Status × EncContext × Bytes
answer enc w none = (failure enosys, enc, w)
answer enc w (some r) = (r.0, r.1, w)

-- A platform whose providers are all that of the caller.
abbrev caller_platform : Platform Bytes
caller_platform = record {
  keys = slot;
  providers = λ n. record provider { transform = λ enc w. answer enc w (caller_transform enc) };
  encui_exit = λ w. w;
  memory = true;
}

pub caller_platform-HasCaller : HasCaller caller_platform
caller_platform-HasCaller = record { transforms = λ enc enc' status w h. ap (answer enc w) h }

abbrev pub scripted_content : Bytes
scripted_content = bytes_of (
    0x1122334455667788
    ∷ cbc_encrypt (schedule tdes 0x133457799BBCDFF1 2) 16 0x1122334455667788
        (0x6C6176656E646572 ∷ 0x6162630000000005 ∷ []))

pub scripted_size : length scripted_content ≡ 24
unfolding bytes_of cbc_encrypt to_bytes
scripted_size = refl

abbrev scripted : EncContext
scripted =
    record (cleared tdes 0 (hex (to_bytes 0x133457799BBCDFF1 ++ to_bytes 2) ++ 0 ∷ [])
      scripted_content 24 (calculate_crc text)) { state = verify }

enc_handle-cbc_encrypt_example :
    (opened : EncContext) × (w' : Bytes) × (enc_handle caller_platform wizard scripted []
      ≡ some (continue, opened, w'))
    × (opened.state ≡ complete)
    × (take opened.size opened.content ≡ text)
    × (opened.size ≡ length text)
enc_handle-cbc_encrypt_example =
    enc_handle-cbc_encrypt caller_platform wizard scripted [] (0 ∷ []) 0x133457799BBCDFF1 2
      0x1122334455667788 (0x6C6176656E646572 ∷ []) 0x6162630000000005 caller_platform-HasCaller refl
      refl refl refl refl (omega arith) (omega arith) refl (omega arith) (omega arith) refl
      scripted_size (omega arith) refl
