-- ===== src/Enc/Keys.antt =====
-- `enc_load_key` and `enc_save_key` of player/src/enc/enc.c: a key is stored under the checksum of its content, bound to
-- the machine. The functions of the platform are parameters.
pub mod RoundTrip
use lavender.Base.{
  ℕ, zero, suc, ◌+◌, ◌/◌, ◌%◌, ◌^◌, Bool, true, false, Bytes, codes, List, [], ◌∷◌, ◌++◌,
}
use lavender.Base.{Option, none, some, if◌then◌else◌, ltb, ◌==◌, not, length, get_or, bit_xor}

-- The functions of the platform that the keys need, over a world `W`: `pal_get_machine_id`,
-- `pal_load_state` with the buffer before and after, and `pal_save_state`.
pub record KeyStore (W : Type 0) : Type 0 where
  pub machine_id : W → Option Bytes
  pub load_state : W → Bytes → Bytes → ℕ × Bytes
  pub save_state : W → Bytes → Bytes → Bool × W

-- A hexadecimal digit, as `%x` writes it.
abbrev pub hex_digit : ℕ → ℕ
hex_digit d = if ltb d 10 then 48 + d else 87 + d

-- `%08x` of a 32-bit number.
unfoldable pub hex_digits : ℕ → ℕ → Bytes
hex_digits zero n = []
hex_digits (suc count) n = hex_digits count (n / 16) ++ hex_digit (n % 16) ∷ []

-- `snprintf (name, sizeof (name), CONTENT_KEY_FMT, cid)`: with the terminator 20 bytes.
unfoldable pub key_name : ℕ → Bytes
unfolding hex_digits
key_name cid = codes "ContentKey-" ++ hex_digits 8 cid

abbrev pub machine_id_size : ℕ
machine_id_size = 16

-- The loops over `buffer[i] ^ mid[i % PAL_MACHINE_ID_SIZE]`, from index `i` on.
unfoldable pub bind_key : Bytes → ℕ → Bytes → Bytes
bind_key mid i [] = []
bind_key mid i (b ∷ bytes) =
    bit_xor b (get_or mid (i % machine_id_size) 0) ∷ bind_key mid (i + 1) bytes

module _ {W : Type 0} (p : KeyStore W) where
  -- `enc_load_key`, with the `size` bytes of the buffer before and after.
  unfoldable pub enc_load_key : W → ℕ → Bytes → Bool × Bytes
  enc_load_key w cid buffer = elim (p.machine_id w) [
    | none ↦ (false, buffer)
    | some mid ↦
        let (loaded, after) = p.load_state w (key_name cid) buffer in
        if not (length buffer == loaded) then (false, after) else (true, bind_key mid 0 after)
  ]

  -- `enc_save_key` of the `size` bytes of the buffer.
  unfoldable pub enc_save_key : W → ℕ → Bytes → Bool × W
  enc_save_key w cid buffer = if ltb 16 (length buffer) then (false, w) else elim (p.machine_id w) [
    | none ↦ (false, w)
    | some mid ↦ p.save_state w (key_name cid) (bind_key mid 0 buffer)
  ]
