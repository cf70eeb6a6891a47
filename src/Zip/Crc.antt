-- ===== src/Zip/Crc.antt =====
-- The CRC-32 of player/src/pal/_zip/zip.c, computed half a byte at a time from a table of sixteen
-- words. A `uint32_t` is a number below 2 ^ 32.
pub mod Reference
pub mod Indirect
use lavender.Base.{ℕ, zero, suc, ◌+◌, ◌-◌, ◌^◌, List, [], ◌∷◌, Bytes, get_or, bit_and, bit_xor}
use lavender.Base.{◌>>>◌, Option, none, some}

abbrev pub crc_table : List ℕ
crc_table =
    0x00000000 ∷ 0x1DB71064 ∷ 0x3B6E20C8 ∷ 0x26D930AC ∷ 0x76DC4190 ∷ 0x6B6B51F4 ∷ 0x4DB26158
    ∷ 0x5005713C ∷ 0xEDB88320 ∷ 0xF00F9344 ∷ 0xD6D6A3E8 ∷ 0xCB61B38C ∷ 0x9B64C2B0 ∷ 0x86D3D2D4
    ∷ 0xA00AE278 ∷ 0xBDBDF21C ∷ []

-- The two assignments of the loop's body. Both indices are below 16, so no read leaves the table.
unfoldable pub crc_nibble : ℕ → ℕ → ℕ
crc_nibble crc n = bit_xor (crc >>> 4) (get_or crc_table (bit_xor (bit_and crc 0xF) n) 0)

unfoldable pub crc_byte : ℕ → ℕ → ℕ
crc_byte crc b = crc_nibble (crc_nibble crc (bit_and b 0xF)) (b >>> 4)

unfoldable pub crc_loop : ℕ → Bytes → ℕ
crc_loop crc [] = crc
crc_loop crc (b ∷ bytes) = crc_loop (crc_byte crc b) bytes

-- `~crc` of a `uint32_t`.
abbrev pub complement32 : ℕ → ℕ
complement32 n = 2 ^ 32 - 1 - n

unfoldable pub calculate_crc : Bytes → ℕ
calculate_crc buffer = complement32 (crc_loop (2 ^ 32 - 1) buffer)

-- The same over `length` bytes that a callback gives by their index, from `i` on. The callback has a
-- state of its own, and may fault.
unfoldable pub indirect_loop :
    {S : Type 0} → (S → ℕ → Option (ℕ × S)) → ℕ → ℕ → ℕ → S → Option (ℕ × S)
indirect_loop stream zero i crc s = some (crc, s)
indirect_loop stream (suc left) i crc s = elim (stream s i) [
  | none ↦ none
  | some (b, s') ↦ indirect_loop stream left (i + 1) (crc_byte crc b) s'
]

unfoldable pub calculate_crc_indirect :
    {S : Type 0} → (S → ℕ → Option (ℕ × S)) → S → ℕ → Option (ℕ × S)
calculate_crc_indirect stream context length =
    elim (indirect_loop stream length 0 (2 ^ 32 - 1) context) [
      | none ↦ none
      | some (crc, s) ↦ some (complement32 crc, s)
    ]
