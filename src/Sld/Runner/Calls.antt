-- ===== src/Sld/Runner/Calls.antt =====
-- `__sld_handle_script_call` of player/src/sld/call.c, built with CONFIG_ENCRYPTED_CONTENT.
use lavender.Base.{ℕ, ◌+◌, ◌-◌, ◌*◌, ◌/◌, ◌%◌, ◌^◌, Bool, [], ◌∷◌, ◌++◌, Option, some, none, Bytes}
use lavender.Base.{ltb, ◌==◌, length, take, drop, str_equal, if◌then◌else◌, not}
use lavender.Cipher.Des.Stream.{◌>>=◌}
use lavender.Enc.{EncCipher, xor, des, tdes, eacces, einval, Status, success, failure, EncContext}
use lavender.Enc.Content.{enc_access_content, le32}
use lavender.Enc.Session.{Wizard, enc_handle}
use lavender.Sld.Entry.{blank, chars, c_string}
use lavender.Sld.Entry.Call.{ScriptCall}
use lavender.Sld.Runner.State.{
  syserr, errno, load, no_exec_ctx, unknown_keysrc, Script, CallState, prepare, enter, decode,
  SldContext, Shared, Executed, done, again, entered, error, Player,
}

-- The bytes of `method`, `crc32` and `parameter`, which follow `file_name` in memory.
abbrev numbers_of : ScriptCall → Bytes
numbers_of c =
    (c.method % 256 ∷ c.method / 2 ^ 8 % 256 ∷ le32 c.crc32)
    ++ c.parameter % 256 ∷ c.parameter / 2 ^ 8 % 256 ∷ []

-- `CONTENT (sld)->file_name` as a text. A name of 30 characters fills its array, and the number behind it
-- has taken the place of the zero.
unfoldable pub name_of : ScriptCall → Bytes
name_of c =
    if ltb (length c.file_name) 30
    then c_string c.file_name
    else c_string (c.file_name ++ numbers_of c ++ c.call_data ++ 0 ∷ [])

-- `CONTENT (sld)->data`, with the byte behind it: the zero, or the lower byte of `state`, STATE_DECODE.
unfoldable pub data_of : ScriptCall → Bytes
data_of c = c.call_data ++ (if ltb (length c.call_data) 40 then 0 else 2) ∷ []

-- The provider and its parameter, of a key source that every method has.
unfoldable pub common_source : EncCipher → ScriptCall → EncCipher × ℕ × Bytes
unfolding data_of
common_source cipher c =
    if c.parameter == 0
    then (cipher, 0, data_of c)
    else if c.parameter == 1
    then (cipher, 1, [])
    else (cipher, 0, [])

xor_source : ScriptCall → EncCipher × ℕ × Bytes
unfolding data_of common_source
xor_source c =
    if c.parameter == 8
    then (xor, 2, data_of c)
    else if c.parameter == 9
    then (xor, 3, data_of c)
    else common_source xor c

des_source : ScriptCall → EncCipher × ℕ × Bytes
unfolding common_source
des_source c = if c.parameter == 8 then (des, 3 * 2 ^ 8 + 1, []) else common_source des c

unfoldable pub tdes_source : ScriptCall → EncCipher × ℕ × Bytes
unfolding data_of common_source
tdes_source c =
    if c.parameter == 8
    then (tdes, 4 * 2 ^ 8 + 1, [])
    else if c.parameter == 9
    then (tdes, 4, if str_equal (c_string c.call_data) (42 ∷ []) then [] else data_of c)
    else common_source tdes c

-- The cipher, the provider and its parameter that `_handle_prepare` chooses. A null pointer is an empty list.
unfoldable pub source_of : ScriptCall → EncCipher × ℕ × Bytes
unfolding xor_source des_source tdes_source common_source
source_of c =
    if c.method == 1
    then xor_source c
    else if c.method == 2
    then des_source c
    else if c.method == 3
    then tdes_source c
    else common_source xor c

-- The script with the bytes and the size of the content.
abbrev pub with_content_of : Script → EncContext → Script
with_content_of script enc = record {
  asset = script.asset;
  script_data = enc.content ++ drop script.script_size script.script_data;
  script_size = enc.size;
}

-- A context as `sld_create_context` makes it, with `sld_run` over it. Its entry is cleared with the message, and
-- `next_step` is written before it is read.
abbrev pub started : Script → SldContext
started script = record {
  script = script;
  offset = 0;
  state = load;
  next_step = 0;
  entry = record {
    delay = 0;
    posx = 0;
    posy = 0;
    sld_type = blank;
    content = chars [];
    length = 0;
  };
  call_state = prepare;
  message = [];
}

-- `sld_create_context` of context.c, of a name and whether the file is to be written.
unfoldable pub sld_create_context : {W : Type 0} → Player W → Bytes → Bool → W → Option Script × W
sld_create_context p name writes w =
    if not p.enc.memory
    then (none, w)
    else (let (asset, w1) = p.open_asset name writes w in
        elim asset [
          | none ↦ (none, w1)
          | some a ↦
              let (bytes, w2) = p.load_asset a w1 in
              elim bytes [
                | none ↦ (none, p.close_asset a w2)
                | some d ↦ (
                  some (record { asset = a; script_data = d; script_size = p.asset_size a w2 }),
                  w2,
                )
              ]
        ])

module _ {W : Type 0} (p : Player W) (z : Wizard W) where
  -- The end of `_handle_prepare`, for an encrypted script.
  unfoldable pub prepare_encrypted :
      ScriptCall → Script → SldContext → Shared W → Option (Executed × SldContext × Shared W)
  prepare_encrypted c script ctx s = do
    let source = source_of c
    (status, enc) ←
        enc_access_content source.0 source.1 source.2 (take script.script_size script.script_data)
          script.script_size c.crc32
    some (
      again,
      record ctx {
        call_state = elim status [
          | failure e ↦ decode script enc
          | success n ↦
              if n == 0 then enter (record script { script_size = enc.size }) else decode script enc
        ];
      },
      s,
    )

  -- `_handle_prepare`, with whether the method is SLD_METHOD_STORE.
  unfoldable pub prepare_by :
      Bool → ScriptCall → SldContext → Shared W → Option (Executed × SldContext × Shared W)
  unfolding prepare_encrypted
  prepare_by stored c ctx s =
      let (opened, w) = sld_create_context p (name_of c) (not stored) s.world in
      let s' = record s { world = w } in
      elim opened [
        | none ↦ some (error syserr (no_exec_ctx ∷ []), ctx, s')
        | some script ↦
            if stored
            then some
                (again, record ctx { call_state = enter script }, record s' { accumulator = 0 })
            else prepare_encrypted c script ctx (record s' { accumulator = 0 })
      ]

  unfoldable pub handle_prepare :
      ScriptCall → SldContext → Shared W → Option (Executed × SldContext × Shared W)
  unfolding prepare_by
  handle_prepare c ctx s = prepare_by (c.method == 0) c ctx s

  -- `_handle_decode` behind `enc_handle`.
  unfoldable pub handle_status :
      Script → Status × EncContext × W → SldContext → Shared W → Executed × SldContext × Shared W
  handle_status script (success n, enc, w) ctx s = (
    again,
    record ctx {
      call_state = if n == 0 then enter (with_content_of script enc) else decode script enc;
    },
    record s { world = w },
  )
  handle_status script (failure eacces, enc, w) ctx s = (
    done,
    record ctx { call_state = decode script enc },
    record s { world = p.close_asset script.asset w; accumulator = 2 ^ 16 - 1 },
  )
  handle_status script (failure einval, enc, w) ctx s = (
    error (errno einval) (unknown_keysrc ∷ []),
    record ctx { call_state = decode script enc },
    record s { world = w },
  )
  handle_status script (failure e, enc, w) ctx s =
      (error (errno e) [], record ctx { call_state = decode script enc }, record s { world = w })

  unfoldable pub handle_decode :
      Script → EncContext → SldContext → Shared W → Option (Executed × SldContext × Shared W)
  unfolding handle_status
  handle_decode script enc ctx s = do
    r ← enc_handle p.enc z enc s.world
    some (handle_status script r ctx s)

  unfoldable pub handle_enter :
      Script → SldContext → Shared W → Option (Executed × SldContext × Shared W)
  handle_enter script ctx s =
      some (entered (started script), record ctx { call_state = prepare }, s)

  -- `__sld_handle_script_call`
  unfoldable pub handle_script_call :
      ScriptCall → CallState → SldContext → Shared W → Option (Executed × SldContext × Shared W)
  unfolding handle_prepare handle_enter handle_decode
  handle_script_call c prepare ctx s = handle_prepare c ctx s
  handle_script_call c (enter script) ctx s = handle_enter script ctx s
  handle_script_call c (decode script enc) ctx s = handle_decode script enc ctx s
