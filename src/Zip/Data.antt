-- ===== src/Zip/Data.antt =====
-- The data of a file in player/src/pal/_zip/zip.c, in a build that reads an open archive from a file.
pub mod Stored
use lavender.Base.{ℕ, ◌+◌, ◌-◌, ◌*◌, ◌^◌, Bool, true, false, Bytes, [], ◌∷◌, Option, none, some}
use lavender.Base.{leb, ◌==◌, not, ◌||◌, if◌then◌else◌, take, drop, length, get_or, bit_and}
use lavender.Cipher.Des.Stream.{◌>>=◌}
use lavender.Zip.Crc.{calculate_crc}

-- `_seek_read`: the bytes read, or `none` where the file has fewer.
unfoldable pub seek_read : Bytes → ℕ → ℕ → Option Bytes
seek_read file offset size =
    if leb size (length (drop offset file)) then some (take size (drop offset file)) else none

-- A little-endian field of a header that was read whole.
abbrev pub u16_at : Bytes → ℕ → ℕ
u16_at header at = get_or header at 0 + get_or header (at + 1) 0 * 256

abbrev pub u32_at : Bytes → ℕ → ℕ
u32_at header at = u16_at header at + u16_at header (at + 2) * 2 ^ 16

-- What `_get_data` gives: the place of the data, and the size and the checksum of the local header.
pub record Located : Type 0 where
  pub place : ℕ
  pub size : ℕ
  pub crc32 : ℕ

-- `~ZIP_FLAGS_SUPPORTED` of a `uint16_t`
abbrev pub unsupported_flags : ℕ
unsupported_flags = 2 ^ 16 - 1 - 2 ^ 11

-- The end of `_get_data`, with the local header.
unfoldable pub locate : ℕ → Bytes → Option Located
locate olfh lfh =
    if not (u16_at lfh 0 == 0x4B50) || not (u16_at lfh 2 == 0x0403)
    then none
    else if not (u16_at lfh 8 == 0) || not (bit_and (u16_at lfh 6) unsupported_flags == 0)
    then none
    else some (record {
      place = olfh + 30 + u16_at lfh 26 + u16_at lfh 28;
      size = u32_at lfh 22;
      crc32 = u32_at lfh 14;
    })

-- `_get_data` of an item that is not negative, in an open archive; `none` is a negative result.
unfoldable pub get_data : Bytes → ℕ → ℕ → Option Located
unfolding seek_read locate
get_data file fbase olfh = do lfh ← seek_read file (fbase + olfh) 30; locate olfh lfh

-- `zip_load_data`: the buffer, or `none` for NULL. `memory` says of a size whether `malloc` gives memory.
unfoldable pub zip_load_data : (ℕ → Bool) → Bytes → ℕ → ℕ → Option Bytes
unfolding get_data seek_read
zip_load_data memory file fbase olfh = do
  data_at ← get_data file fbase olfh
  if not (memory data_at.size) then none else (do
    buffer ← seek_read file (fbase + data_at.place) data_at.size
    if not (calculate_crc buffer == data_at.crc32) then none else some buffer)
