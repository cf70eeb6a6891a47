-- ===== src/Zip/Archive.antt =====
-- The search for a file in the central directory of player/src/pal/_zip/zip.c. A header is the list of the bytes
-- from its place to the end of the directory; a read behind that is a fault, `none`. `errno` is left out.
pub mod Endless
pub mod Search
use lavender.Base.{
  ℕ, zero, suc, ◌+◌, ◌-◌, ◌*◌, ◌^◌, Bool, true, false, Bytes, [], ◌∷◌, Option, none, some,
}
use lavender.Base.{
  ltb, ◌==◌, not, ◌&&◌, ◌||◌, if◌then◌else◌, take, drop, length, get_elem?, u16, bit_and, ◌>>>◌,
}
use lavender.Base.{str_equal}
use lavender.Cipher.Des.Stream.{◌>>=◌}
use lavender.Utf8.{Sign, less, same, greater, strncasecmp}

-- A little-endian field at an offset.
unfoldable pub field16 : Bytes → ℕ → Option ℕ
field16 header at = do a ← get_elem? header at; b ← get_elem? header (at + 1); some (a + b * 256)

unfoldable pub field32 : Bytes → ℕ → Option ℕ
unfolding field16
field32 header at = do
  low ← field16 header at
  high ← field16 header (at + 2)
  some (low + high * 2 ^ 16)

-- The results of `_match_file_name`: 0, 1 and -1; and that the rounds given to its loop are used up.
pub data Match : Type 0 where
  found different failed unfinished : Match

-- `memcmp (a, b, n) == 0`, of buffers of `n` bytes at least.
unfoldable pub mem_equal : ℕ → Bytes → Bytes → Option Bool
mem_equal n a b =
    if ltb (length a) n || ltb (length b) n then none else some (str_equal (take n a) (take n b))

unfoldable pub is_same : Sign → Bool
is_same less = false
is_same same = true
is_same greater = false

-- The loop over the extra fields, in so many rounds. `left` is the number of bytes to the end of the fields.
unfoldable pub match_extra : ℕ → Bytes → ℕ → Bytes → Option Match
match_extra zero name left hdr = some unfinished
match_extra (suc rounds) name zero hdr = some different
match_extra (suc rounds) name (suc left) hdr = do
  signature ← field16 hdr 0
  total_size ← field16 hdr 2
  elim (signature == 0x7075) [
    | false ↦ match_extra rounds name (suc left - (total_size + 4)) (drop (total_size + 4) hdr)
    | true ↦ (do
      sign ← strncasecmp name (drop 10 hdr) (u16 (total_size + 2 ^ 16 - 10))
      elim (is_same sign) [ true ↦ some found | false ↦ match_extra rounds name (suc left) hdr ])
  ]

-- The comparison for file systems that ignore case.
unfoldable pub match_folded : ℕ → Bytes → ℕ → Bytes → ℕ → Option Match
unfolding match_extra
match_folded rounds name size cfh name_length = do
  sign ← if size == name_length then strncasecmp name (drop 46 cfh) name_length else some greater
  if is_same sign then some found else (do
    extra_length ← field16 cfh 30
    match_extra rounds name extra_length (drop (46 + name_length) cfh))

-- The comparison byte by byte.
unfoldable pub match_regular : Bytes → ℕ → Bytes → ℕ → Option Match
unfolding mem_equal
match_regular name size cfh name_length = if not (size == name_length) then some different else (do
  equal ← mem_equal name_length name (drop 46 cfh)
  some (if equal then found else different))

-- `_match_file_name`, with the rounds for the loop over the extra fields.
unfoldable pub match_file_name : ℕ → Bytes → ℕ → Bytes → Option Match
unfolding match_folded match_regular field16
match_file_name rounds name size cfh = do
  pk_signature ← field16 cfh 0
  header_signature ← field16 cfh 2
  if not (pk_signature == 0x4B50)
        || (header_signature == 0x0605)
        || not (header_signature == 0x0201)
      then some failed
      else (do
        version ← field16 cfh 4
        name_length ← field16 cfh 28
        let file_system = bit_and (version >>> 8) 0xFF
        if not (file_system == 0) && not (file_system == 10) && not (file_system == 14)
            then match_regular name size cfh name_length
            else match_folded rounds name size cfh name_length)

-- The result of `zip_enum_files`: the count, or -1; and that the rounds given are used up.
pub data Enumerated : Type 0 where
  counted : ℕ → Enumerated
  broken : Enumerated
  endless : Enumerated

-- `zip_enum_files` from a header on, with a callback over a state.
unfoldable pub enum_files :
    {S : Type 0} → (S → Bytes → Option (Bool × S)) → ℕ → Bytes → ℕ → S → Option (Enumerated × S)
enum_files callback zero cfh i s = some (endless, s)
enum_files callback (suc rounds) cfh i s = do
  pk_signature ← field16 cfh 0
  header_signature ← field16 cfh 2
  if not (pk_signature == 0x4B50)
      then some (broken, s)
      else if header_signature == 0x0605
      then some (counted i, s)
      else if not (header_signature == 0x0201)
      then some (broken, s)
      else (do
        (more, s') ← callback s cfh
        name_length ← field16 cfh 28
        extra_length ← field16 cfh 30
        comment_length ← field16 cfh 32
        let rest =
            enum_files callback rounds
              (drop (46 + (name_length + extra_length + comment_length)) cfh) (i + 1) s'
        if more then rest else some (counted i, s'))

-- `_zip_enum_files_callback`: the state is the header found, or that a comparison did not end.
pub record SearchContext : Type 0 where
  pub result : Option Bytes
  pub stuck : Bool

unfoldable pub enum_files_callback :
    ℕ → Bytes → ℕ → SearchContext → Bytes → Option (Bool × SearchContext)
unfolding match_file_name
enum_files_callback rounds name size ctx cfh = do
  status ← match_file_name rounds name size cfh
  some (elim status [
    | found ↦ (false, record ctx { result = some cfh })
    | different ↦ (true, ctx)
    | failed ↦ (false, ctx)
    | unfinished ↦ (false, record ctx { stuck = true })
  ])

-- The result of `zip_search`: an offset, or -1 for a file that is missing or a broken directory; and that the
-- rounds given are used up.
pub data Searched : Type 0 where
  item : ℕ → Searched
  missing : Searched
  broken_directory : Searched
  unsettled : Searched

-- The end of `zip_search`.
unfoldable pub searched : Enumerated × SearchContext → Option Searched
unfolding field32
searched (broken, ctx) = some broken_directory
searched (endless, ctx) = some unsettled
searched (counted n, ctx) = if ctx.stuck then some unsettled else elim ctx.result [
  | some cfh ↦ (do offset ← field32 cfh 42; some (item offset))
  | none ↦ some missing
]

-- `zip_search` in an open archive, with the rounds for both loops.
unfoldable pub zip_search : ℕ → Bytes → Bytes → ℕ → Option Searched
unfolding enum_files enum_files_callback searched
zip_search rounds cdir name size = do
  r ←
      enum_files (enum_files_callback rounds name size) rounds cdir 0
        (record { result = none; stuck = false })
  searched r
