-- ===== src/Zip/Archive/Search.antt =====
-- What `zip_search` finds in a directory of files whose names are compared byte by byte.
use lavender.Base.{ℕ, zero, suc, ◌+◌, ◌<◌, ◌≡◌, refl, ◌∙◌, Bool, true, false, not}
use lavender.Base.{
  Bytes, List, [], ◌∷◌, ◌++◌, none, some, arith, ltb, ◌==◌, ◌&&◌, inl, inr, Bool-cases,
  if◌then◌else◌,
}
use lavender.Base.{
  length, length-append, take, drop, ==_iff, str_equal, str_equal-length, bit_and, ◌>>>◌,
}
use lavender.Base.{take-append_le, take-all}
use lavender.Zip.Archive.{
  field16, field32, Match, found, different, mem_equal, match_regular, match_file_name, enum_files,
  Enumerated, counted, SearchContext, enum_files_callback, Searched, item, missing, searched,
  zip_search,
}

-- A file of the directory: its name and the place of its local header.
pub record File : Type 0 where
  pub name : Bytes
  pub offset : ℕ

-- A version whose file system minds case.
abbrev pub minds_case : ℕ → Bool
minds_case version =
    not (bit_and (version >>> 8) 0xFF == 0)
    && not (bit_and (version >>> 8) 0xFF == 10)
    && not (bit_and (version >>> 8) 0xFF == 14)

-- A header of the directory, with the name behind it, and what follows the header.
pub record IsHeader (cfh : Bytes) (file : File) (next : Bytes) : Type 0 where
  pub version : ℕ
  pub extra_length : ℕ
  pub comment_length : ℕ
  pub behind : Bytes
  pub pk_signature : field16 cfh 0 ≡ some 0x4B50
  pub header_signature : field16 cfh 2 ≡ some 0x0201
  pub version_is : field16 cfh 4 ≡ some version
  pub regular : minds_case version ≡ true
  pub name_length_is : field16 cfh 28 ≡ some (length file.name)
  pub extra_length_is : field16 cfh 30 ≡ some extra_length
  pub comment_length_is : field16 cfh 32 ≡ some comment_length
  pub offset_is : field32 cfh 42 ≡ some file.offset
  pub name_is : drop 46 cfh ≡ file.name ++ behind
  pub next_is : drop (46 + (length file.name + extra_length + comment_length)) cfh ≡ next

-- A directory of these files, up to the header of its end.
abbrev pub IsDirectory : Bytes → List File → Type 0
IsDirectory cdir [] = (field16 cdir 0 ≡ some 0x4B50) × (field16 cdir 2 ≡ some 0x0605)
IsDirectory cdir (file ∷ files) = (next : Bytes) × IsHeader cdir file next × IsDirectory next files

-- The first file of that name.
abbrev pub lookup : Bytes → List File → Searched
lookup name [] = missing
lookup name (file ∷ files) =
    if str_equal name file.name then item file.offset else lookup name files

abbrev outcome : Bool → Match
outcome true = found
outcome false = different

match_regular-str_equal :
    (name file_name cfh behind : Bytes)
    → drop 46 cfh ≡ file_name ++ behind
    → match_regular name (length name) cfh (length file_name)
      ≡ some (outcome (str_equal name file_name))
unfolding match_regular mem_equal
match_regular-str_equal name file_name cfh behind e =
    elim (Bool-cases (length name == length file_name)) [
      | inr differ ↦ elim (Bool-cases (str_equal name file_name)) [
        | inl equal ↦
            let same =
              (==_iff (length name) (length file_name)).1 (str_equal-length name file_name equal) in
            absurd (ground arith)
        | inr no_match ↦ rw (differ, no_match) refl
      ]
      | inl equal ↦
          let same = (==_iff (length name) (length file_name)).0 equal in
          let here : ltb (length name) (length file_name) ≡ false = ground arith in
          let there : ltb (length (file_name ++ behind)) (length file_name) ≡ false =
            ground (arith, length-append file_name behind) in
          let first : take (length file_name) name ≡ name = take-all (length file_name) name same in
          let second : take (length file_name) (file_name ++ behind) ≡ file_name =
            take-append_le (length file_name) file_name behind (omega arith)
            ∙ take-all (length file_name) file_name refl in
          elim (Bool-cases (str_equal name file_name)) [
            | inl b ↦ rw (equal, e, here, there, first, second, b) refl
            | inr b ↦ rw (equal, e, here, there, first, second, b) refl
          ]
    ]

match_file_name-outcome :
    (rounds : ℕ) (name cfh next : Bytes) (file : File)
    → IsHeader cfh file next
    → match_file_name rounds name (length name) cfh ≡ some (outcome (str_equal name file.name))
unfolding match_file_name
match_file_name-outcome rounds name cfh next file h =
    rw (h.pk_signature, h.header_signature, h.version_is, h.name_length_is, h.regular)
      (match_regular-str_equal name file.name cfh h.behind h.name_is)

module _ (rounds : ℕ) (name : Bytes) where
  start : SearchContext
  start = record { result = none; stuck = false }

  -- What the callback does with a header, by whether the name is the one.
  told : Bool → Bytes → Bool × SearchContext
  told true cfh = (false, record { result = some cfh; stuck = false })
  told false cfh = (true, start)

  enum_files_callback-told :
      (cfh next : Bytes) (file : File)
      → IsHeader cfh file next
      → enum_files_callback rounds name (length name) start cfh
        ≡ some (told (str_equal name file.name) cfh)
  unfolding enum_files_callback start told
  enum_files_callback-told cfh next file h =
      let run = match_file_name-outcome rounds name cfh next file h in
      elim (Bool-cases (str_equal name file.name)) [
        | inl b ↦ rw (run, b) refl
        | inr b ↦ rw (run, b) refl
      ]

  -- The enumeration ends in the result for the first file of that name.
  enum_files-lookup :
      (left : ℕ) (cdir : Bytes) (files : List File) (i : ℕ)
      → IsDirectory cdir files
      → length files < left
      → (e : Enumerated × SearchContext) × (enum_files
            (enum_files_callback rounds name (length name))
            left
            cdir
            i
            start
          ≡ some e)
        × (searched e ≡ some (lookup name files))
  unfolding enum_files searched start told
  enum_files-lookup zero cdir files i d h = absurd (omega arith)
  enum_files-lookup (suc left) cdir [] i (pk, sign) h =
      ((counted i, start), rw (pk, sign) refl, refl)
  enum_files-lookup (suc left) cdir (file ∷ files) i (next, here, rest) h =
      let run = enum_files_callback-told cdir next file here in
      elim (Bool-cases (str_equal name file.name)) [
        | inl b ↦ (
          (counted i, record { result = some cdir; stuck = false }),
          rw
              (
                here.pk_signature, here.header_signature, run, b, here.name_length_is,
                here.extra_length_is, here.comment_length_is,
              )
              refl,
          rw (here.offset_is, b) refl,
        )
        | inr b ↦
            let (e, more, found_it) =
              enum_files-lookup left next files (i + 1) rest (omega arith) in
            (
              e,
              rw
                  (
                    here.pk_signature, here.header_signature, run, b, here.name_length_is,
                    here.extra_length_is, here.comment_length_is, here.next_is,
                  )
                  more,
              rw b found_it,
            )
      ]

-- In an archive whose directory lists files of file systems that mind case, `zip_search` ends, after no more rounds
-- than there are files and one, reads nothing behind the directory, and gives the offset of the first file whose
-- name is the one that is asked for, byte by byte, or reports that there is none.
pub zip_search-lookup :
    (rounds : ℕ) (cdir name : Bytes) (files : List File)
    → IsDirectory cdir files
    → length files < rounds
    → zip_search rounds cdir name (length name) ≡ some (lookup name files)
unfolding zip_search start
zip_search-lookup rounds cdir name files d h =
    let (e, run, outcome) = enum_files-lookup rounds name rounds cdir files 0 d h in rw run outcome
