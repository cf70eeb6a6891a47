-- ===== src/Sld/Entry/Call.antt =====
-- `__sld_load_script_call` of player/src/sld/call.c.
use mathlib.Core.Option
use lavender.Base.{
  ℕ, suc, ◌+◌, ◌-◌, ◌*◌, ◌^◌, Bool, true, false, [], ◌∷◌, Option, some, none, Bytes,
}
use lavender.Base.{ltb, ◌==◌, ◌||◌, drop, get_elem?, length, if◌then◌else◌, u8, u32, u64, not}
use lavender.Cipher.Des.Stream.{◌>>=◌}
use lavender.Num.{isxdigit, xtob_digit}
use lavender.Sld.Numbers.{isspace, skip_spaces, Stopped, one_more}
use lavender.Sld.Loader.{Loaded, loaded, argerr, long_name, long_content, is_line_end, advance}

-- The external data of `script_call_content`. A text of fewer characters than its array holds is followed by a zero
-- there.
pub record ScriptCall : Type 0 where
  pub file_name : Bytes
  pub method : ℕ
  pub crc32 : ℕ
  pub parameter : ℕ
  pub call_data : Bytes

-- A loop that copies characters up to one that `stops`, with the number of those written: `none` inside where more
-- than `last` of them are written.
unfoldable pub copy_until : (ℕ → Bool) → ℕ → Bytes → ℕ → Option (Option Bytes)
copy_until stops last [] written = none
copy_until stops last (c ∷ str) written = elim (stops c) [
  | true ↦ some (some [])
  | false ↦ elim (ltb last written) [
    | true ↦ some none
    | false ↦
        Option.map (Option.map (λ (cs : Bytes). c ∷ cs)) (copy_until stops last str (suc written))
  ]
]

-- The digits that `strtoul` reads in base 16.
hex_run : Bytes → ℕ → Option Stopped
hex_run [] out = none
hex_run (c ∷ str) out = elim (isxdigit c) [
  | true ↦ Option.map one_more (hex_run str (out * 16 + xtob_digit c))
  | false ↦ some (record { passed = 0; value = out; rest = c ∷ str })
]

-- The length of the prefix `0x` that it passes, where a digit is behind it.
hex_prefix : Bytes → Option ℕ
hex_prefix str = do
  a ← get_elem? str 0
  if not (a == 48) then some 0 else (do
    b ← get_elem? str 1
    if not (b == 120 || b == 88)
        then some 0
        else (do c ← get_elem? str 2; some (if isxdigit c then 2 else 0)))

-- ULONG_MAX, of 64 bits.
abbrev ulong_max : ℕ
ulong_max = 2 ^ 64 - 1

-- `strtoul (cur, &cur, 16)`: the bytes that it passes, and the number as a `uint32_t`.
unfoldable pub strtoul_16 : Bytes → Option (ℕ × ℕ)
unfolding hex_run hex_prefix
strtoul_16 str = do
  a ← skip_spaces str
  c ← get_elem? a.rest 0
  let sign = if c == b'+' || c == b'-' then 1 else 0
  prefix ← hex_prefix (drop sign a.rest)
  d ← hex_run (drop (sign + prefix) a.rest) 0
  some (
    if d.passed == 0 then 0 else a.passed + sign + prefix + d.passed,
    u32 (
        if ltb ulong_max d.value
        then ulong_max
        else if c == b'-'
        then u64 (2 ^ 64 - d.value)
        else d.value),
  )

-- The numbers behind the name, from a place of the script on: where they end, the method, the checksum and the
-- parameter.
unfoldable pub call_numbers : Bytes → ℕ → Option (ℕ × ℕ × ℕ × ℕ)
unfolding strtoul_16
call_numbers script cur = do
  (first, method) ← advance script cur
  (passed, crc32) ← strtoul_16 (drop first script)
  (last, parameter) ← advance script (first + passed)
  some (last, method, crc32, parameter)

-- The end of `__sld_load_script_call`, behind the name.
unfoldable pub load_call_data : Bytes → (start cur : ℕ) → Bytes → Option (Loaded (ScriptCall × ℕ))
unfolding call_numbers
load_call_data script start cur name = do
  c ← get_elem? script cur
  (place, method, crc32, parameter) ←
      if is_line_end c then some (cur, 0, 0, 0) else call_numbers script cur
  rest ← copy_until is_line_end 39 (drop place script) 0
  elim rest [
    | none ↦ some (argerr long_content)
    | some bytes ↦ some (
        loaded (place + length bytes - start) (
          record {
            file_name = name;
            method = method;
            crc32 = crc32;
            parameter = parameter;
            call_data = bytes;
          },
          u8 (length name),
        ))
  ]

-- `__sld_load_script_call` from a place of the script on: the call, and `out->length`.
unfoldable pub load_script_call : Bytes → ℕ → Option (Loaded (ScriptCall × ℕ))
unfolding load_call_data
load_script_call script start = do
  a ← skip_spaces (drop start script)
  name ← copy_until isspace 29 a.rest 0
  elim name [
    | none ↦ some (argerr long_name)
    | some chars ↦ load_call_data script start (start + a.passed + length chars) chars
  ]
