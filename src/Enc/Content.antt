-- ===== src/Enc/Content.antt =====
-- `_decrypt_content` and `enc_access_content` of player/src/enc/enc.c.
pub mod Steps
pub mod Streams
pub mod Opened
pub mod Laws
pub mod Opens
use mathlib.Core.Option
use lavender.Base.{
  ℕ, ◌+◌, ◌-◌, ◌/◌, ◌%◌, ◌^◌, Bool, true, false, Bytes, List, [], ◌∷◌, ◌++◌, Option, none, some,
}
use lavender.Base.{
  if◌then◌else◌, ltb, ◌==◌, not, ◌&&◌, take, drop, replicate, u32, bit_and, ◌*◌, get_elem?,
}
use lavender.Cipher.Stream.{Stream}
use lavender.Cipher.Des.Stream.{◌>>=◌}
use lavender.Cipher.InPlace.{store}
use lavender.Enc.{
  EncCipher, xor, des, tdes, EncStream, State, initialize, complete, Errno, enoent, einval, eacces,
  Status, success, failure, continue, EncContext, enc_prepare, enc_free, enc_verify, enc_decrypt,
}
use lavender.Enc.Keys.{KeyStore, enc_load_key, enc_save_key}
use lavender.Zip.Crc.{calculate_crc}

-- `enc_provider_proc`: what a provider of keys does on each of its messages.
pub record Provider (W : Type 0) : Type 0 where
  pub initialize_key : EncContext → W → Status × EncContext × W
  pub transform : EncContext → W → Status × EncContext × W
  pub error_string : EncContext → Status
  pub storage_policy : EncContext → W → Status

-- What enc.c calls of the platform: the store of keys, the table `PROVIDER`, `encui_exit` and `malloc`.
pub record Platform (W : Type 0) : Type 0 where
  pub keys : KeyStore W
  pub providers : ℕ → Provider W
  pub encui_exit : W → W
  pub memory : Bool

-- `ENC_PROV`
abbrev pub enc_prov : {W : Type 0} → Platform W → EncContext → Provider W
enc_prov p enc = p.providers (bit_and enc.provider 0xFF)

-- The size of a key.
abbrev pub key_size : EncCipher → ℕ
key_size xor = 6
key_size des = 8
key_size tdes = 16

abbrev pub has_padding : EncCipher → Bool
has_padding xor = false
has_padding des = true
has_padding tdes = true

-- A 32-bit number as the four bytes that it is stored in.
abbrev pub le32 : ℕ → Bytes
le32 n = n % 256 ∷ n / 2 ^ 8 % 256 ∷ n / 2 ^ 16 % 256 ∷ n / 2 ^ 24 % 256 ∷ []

-- `PT_SIZE (content, size) = value`
unfoldable pub write_pt_size : Bytes → ℕ → ℕ → Option Bytes
write_pt_size content size value =
    if ltb size 4 then none else store content (size - 4) (le32 (u32 value))

-- `PT_SIZE (content, size)`
unfoldable pub read_pt_size : Bytes → ℕ → Option ℕ
read_pt_size content size = if ltb size 4 then none else (do
  a ← get_elem? content (size - 4)
  b ← get_elem? content (size - 3)
  c ← get_elem? content (size - 2)
  d ← get_elem? content (size - 1)
  some (a + b * 2 ^ 8 + c * 2 ^ 16 + d * 2 ^ 24))

-- The size of the content and its bytes after decryption.
unfoldable pub set_size : EncContext → EncStream → Bytes → Option EncContext
set_size enc e buffer =
    if has_padding enc.cipher
    then Option.map
        (λ (content : Bytes). record enc {
          enc_stream = e;
          content = content;
          size = e.stream.data_length;
        })
        (write_pt_size buffer enc.size e.stream.data_length)
    else some (record enc { enc_stream = e; content = buffer })

module _ {W : Type 0} (p : Platform W) where
  -- The start of `_decrypt_content`: the status to return, or `none` to go on.
  unfoldable pub obtain_key : Bool → EncContext → W → Option Status × EncContext × W
  obtain_key true enc w =
      let size = key_size enc.cipher in
      let (loaded, bytes) = enc_load_key p.keys w enc.crc32 (take size enc.key) in
      (
        if loaded then none else some (failure enoent),
        record enc { key = bytes ++ drop size enc.key },
        w,
      )
  obtain_key false enc w =
      let (status, enc', w') = (enc_prov p enc).transform enc w in
      elim status [
        | success n ↦ (none, enc', w')
        | failure e ↦ (some (failure e), enc', p.encui_exit w')
      ]

  -- The key is saved where the provider asks for it.
  unfoldable pub save_if_asked : Bool → EncContext → W → W
  save_if_asked true enc w = w
  save_if_asked false enc w = elim ((enc_prov p enc).storage_policy enc w) [
    | failure e ↦ w
    | success n ↦
        if n == 1
        then (enc_save_key p.keys w enc.crc32 (take enc.enc_stream.stream.key_length enc.key)).1
        else w
  ]

  -- The content is decrypted, after its checksum was found right.
  unfoldable pub open_content : Bool → EncContext → W → Option (Status × EncContext × W)
  open_content load_key enc w = do
    let w' = save_if_asked load_key enc w
    (decrypted, _, buffer) ← enc_decrypt enc.enc_stream
    (freed, _) ← enc_free decrypted
    enc' ← set_size enc freed buffer
    some (success 0, enc', w')

  -- The rest of `_decrypt_content` behind `enc_prepare`, whose result is given.
  unfoldable pub verify_content : Bool → EncContext → W → Bool → Option (Status × EncContext × W)
  unfolding open_content
  verify_content load_key enc w false = some (failure einval, enc, w)
  verify_content load_key enc w true = do
    verified ← enc_verify enc.enc_stream enc.crc32
    if verified then open_content load_key enc w else (do
      (freed, _) ← enc_free enc.enc_stream
      some (failure eacces, record enc { enc_stream = freed }, w))

  -- The rest of `_decrypt_content`, with the key at hand.
  unfoldable pub use_key : Bool → EncContext → W → Option (Status × EncContext × W)
  unfolding verify_content
  use_key load_key enc w = do
    (e, prepared) ←
        enc_prepare p.memory enc.enc_stream enc.cipher enc.content enc.size enc.key
          (key_size enc.cipher)
    verify_content load_key (record enc { enc_stream = e }) w prepared

  -- `_decrypt_content`
  unfoldable pub decrypt_content : EncContext → Bool → W → Option (Status × EncContext × W)
  decrypt_content enc load_key w =
      let (status, enc', w') = obtain_key load_key enc w in
      elim status [ none ↦ use_key load_key enc' w' | some s ↦ some (s, enc', w') ]

  -- `__enc_decrypt_content`: zero, a message or an error.
  unfoldable pub enc_decrypt_content : EncContext → W → Option (Status × EncContext × W)
  enc_decrypt_content enc w = do
    (status, enc', w') ← decrypt_content enc false w
    elim status [
      | success n ↦ some (success 0, enc', w')
      | failure eacces ↦ some ((enc_prov p enc').error_string enc', enc', w')
      | failure e ↦ some (failure e, enc', w')
    ]

-- The context that `enc_access_content` starts from.
abbrev pub cleared : EncCipher → ℕ → Bytes → Bytes → ℕ → ℕ → EncContext
cleared cipher provider parameter content length crc32 = record {
  cipher = cipher;
  provider = provider;
  parameter = parameter;
  content = content;
  size = length;
  crc32 = crc32;
  state = initialize;
  enc_stream = record {
    stream = record { content = []; data_length = 0; key = []; key_length = 0; context = none };
    impl = none;
  };
  key = replicate 16 0;
  buffer = replicate 34 0;
  local_part = 0;
  passcode = 0;
}

-- `enc_access_content`, of a cleared context: zero for content that is decrypted already.
unfoldable pub access : EncContext → Option (Status × EncContext)
access enc =
    if not (has_padding enc.cipher)
    then some (
        if calculate_crc (take enc.size enc.content) == enc.crc32
        then (success 0, record enc { state = complete })
        else (continue, enc))
    else (do
      pt_size ← read_pt_size enc.content enc.size
      some (
          if ltb pt_size enc.size && calculate_crc (take pt_size enc.content) == enc.crc32
          then (success 0, record enc { size = pt_size; state = complete })
          else (continue, enc)))

unfoldable pub enc_access_content :
    EncCipher → ℕ → Bytes → Bytes → ℕ → ℕ → Option (Status × EncContext)
unfolding access
enc_access_content cipher provider parameter content length crc32 =
    access (cleared cipher provider parameter content length crc32)
