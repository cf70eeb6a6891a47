-- ===== src/Tests/Calls.antt =====
-- A concrete script call of player/src/sld/call.c that opens an encrypted script.
use lavender.Base.{
  ◌≡◌, refl, ap, sym, All, true, false, [], ◌∷◌, ◌++◌, some, Bytes, codes, length, take, take-all,
  replicate, arith,
}
use lavender.Zip.Crc.{calculate_crc}
use mathlib.Core.Path.{subst}
use lavender.Cipher.Des.{
  des, generate_subkeys, permute, permute_loop, des_loop, f, f_loop, substitute, subkeys_loop,
  rotl28,
}
use lavender.Cipher.Des.Stream.{to_bytes}
use lavender.Cipher.Des.Stream.Blocks.{bytes_of}
use lavender.Cipher.Des.Stream.Whole.{IsByte}
use lavender.Cipher.Des.Stream.Encrypt.{cbc_encrypt, encrypt_block}
use lavender.Enc.{tdes, continue}
use lavender.Enc.Keys.{enc_load_key}
use lavender.Enc.Content.{Platform, enc_access_content, access, read_pt_size, cleared}
use lavender.Enc.Caller.{caller_transform}
use lavender.Enc.Caller.Laws.{hex}
use lavender.Sld.Entry.{call, script_call}
use lavender.Sld.Entry.Call.{ScriptCall}
use lavender.Sld.Areas.{areas_at_start}
use lavender.Sld.Runner.State.{Script, SldContext, Shared, prepare, load, Player}
use lavender.Sld.Runner.Calls.{sld_create_context, started, name_of, data_of}
use lavender.Sld.Runner.{machine}
use lavender.Sld.Runner.Steps.{steps}
use lavender.Sld.Runner.Sealed.{IsSealed, calling}
use lavender.Sld.Runner.Opened.{HasCallerKeys, sld_handle-cbc_encrypt}
use lavender.Tests.Session.{slot, provider, answer, scripted_content, scripted_size, text, wizard}
use lavender.Tests.Runner.{recorder, two_lines}

abbrev encrypted_script : Script
encrypted_script = record { asset = 2; script_data = scripted_content; script_size = 24 }

-- A platform without saved keys.
abbrev unsaved_platform : Platform Bytes
unsaved_platform = record {
  keys = record slot { load_state = λ w name buffer. (0, buffer) };
  providers = λ n. record provider { transform = λ enc w. answer enc w (caller_transform enc) };
  encui_exit = λ w. w;
  memory = true;
}

abbrev opener : Player Bytes
opener = record recorder {
  open_asset = λ name writes w. (some 2, w);
  load_asset = λ a w. (some scripted_content, w);
  asset_size = λ a w. 24;
  enc = unsaved_platform;
}

abbrev the_call : ScriptCall
the_call = record {
  file_name = codes "next.txt";
  method = 3;
  crc32 = calculate_crc text;
  parameter = 0;
  call_data = hex (to_bytes 0x133457799BBCDFF1 ++ to_bytes 2);
}

abbrev caller_context : SldContext
caller_context = record (started two_lines) {
  entry = record ((started two_lines).entry) { sld_type = call; content = script_call the_call };
}

-- The bytes of the encrypted script.
abbrev computed : Bytes
computed =
    17 ∷ 34 ∷ 51 ∷ 68 ∷ 85 ∷ 102 ∷ 119 ∷ 136 ∷ 138 ∷ 46 ∷ 147 ∷ 48 ∷ 207 ∷ 24 ∷ 44 ∷ 80 ∷ 164 ∷ 82
    ∷ 11 ∷ 144 ∷ 161 ∷ 0 ∷ 94 ∷ 132 ∷ []

scripted_bytes : scripted_content ≡ computed
unfolding bytes_of cbc_encrypt encrypt_block to_bytes des generate_subkeys permute permute_loop
    des_loop f f_loop substitute subkeys_loop rotl28
scripted_bytes = refl

abbrev at_rest : Shared Bytes
at_rest = record { accumulator = 0; areas = areas_at_start; world = [] }

opens : (sld_create_context opener (name_of the_call) true []).0 ≡ some encrypted_script
unfolding sld_create_context
opens = refl

the_call-IsSealed :
    IsSealed the_call encrypted_script 0x133457799BBCDFF1 2 0x1122334455667788
      (0x6C6176656E646572 ∷ [])
      0x6162630000000005
the_call-IsSealed = record {
  method = refl;
  parameter = refl;
  given = refl;
  first_ok = omega arith;
  second_ok = omega arith;
  blocks = omega arith;
  pad = omega arith;
  fits = let size = scripted_size in omega arith;
  below = omega arith;
  bytes = subst (λ (t : Bytes). All IsByte (take 24 t)) (sym scripted_bytes) (omega arith);
  made = take-all 24 scripted_content scripted_size;
  sum = refl;
}

locked_at :
    (content : Bytes)
    → computed ≡ content
    → enc_access_content tdes 0 (data_of the_call) (take 24 content) 24 (calculate_crc text)
      ≡ some (continue, cleared tdes 0 (data_of the_call) (take 24 content) 24 (calculate_crc text))
unfolding enc_access_content access read_pt_size
locked_at content e =
    subst
      (λ (t : Bytes).
        enc_access_content tdes 0 (data_of the_call) (take 24 t) 24 (calculate_crc text)
        ≡ some (continue, cleared tdes 0 (data_of the_call) (take 24 t) 24 (calculate_crc text)))
      e refl

opener-HasCallerKeys : HasCallerKeys unsaved_platform
opener-HasCallerKeys = record {
  caller = record { transforms = λ enc enc' status w h. ap (answer enc w) h };
  starts = λ enc w. refl;
}

no_key :
    (w : Bytes) → (enc_load_key unsaved_platform.keys w the_call.crc32 (replicate 16 0)).0 ≡ false
unfolding enc_load_key
no_key w = refl

sld_handle-cbc_encrypt_example :
    (opened : Script) × (s : Shared Bytes) × (steps opener wizard 5
        (machine (calling caller_context prepare) [] at_rest)
      ≡ some (
          machine
            (started opened)
            (record caller_context { state = load; call_state = prepare } ∷ [])
            s))
    × (take opened.script_size opened.script_data ≡ text)
    × (opened.script_size ≡ length text)
sld_handle-cbc_encrypt_example =
    sld_handle-cbc_encrypt opener wizard the_call caller_context [] encrypted_script
      0x133457799BBCDFF1 2 0x1122334455667788 (0x6C6176656E646572 ∷ []) 0x6162630000000005 at_rest
      opener-HasCallerKeys (λ w name buffer. refl) refl (λ s. refl) refl refl the_call-IsSealed
      opens no_key (locked_at scripted_content (sym scripted_bytes))
