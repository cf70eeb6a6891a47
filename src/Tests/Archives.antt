-- ===== src/Tests/Archives.antt =====
-- Concrete runs of player/src/pal/_zip/zip.c, player/src/numstr.c and player/src/enc/provider/caller.c.
use lavender.Base.{ℕ, ◌≡◌, ◌≢◌, refl, Bool, true, false, Bytes, codes, [], ◌∷◌, ◌++◌}
use lavender.Base.{none, some, arith, drop, ◌==◌, if◌then◌else◌, inl, replicate}
use lavender.Utf8.{less, same, strncasecmp, get_codepoint, compare_folds, fold_case}
use lavender.Zip.Crc.{calculate_crc}
use lavender.Zip.Archive.{field16, field32, match_extra, unfinished, zip_search}
use lavender.Zip.Archive.Endless.{match_extra-unfinished}
use lavender.Zip.Archive.Search.{File, IsHeader, lookup, zip_search-lookup}
use lavender.Zip.Data.{zip_load_data}
use lavender.Zip.Data.Stored.{local_header, zip_load_data-stored}
use lavender.Sld.Numbers.{isspace, isdigit}
use lavender.Num.{rstrtoull, isxdigit, digxform_16}
use lavender.Num.Laws.{decimal, hexadecimal, spell}
use lavender.Enc.{des, xor, success, EncContext}
use lavender.Enc.Content.{cleared}
use lavender.Enc.Caller.{caller_transform}
use lavender.Enc.Caller.Laws.{caller_transform-hex, caller_transform-hex_backwards}

one_space : isspace 32 ≡ true
unfolding isspace
one_space = refl

digits : (isdigit 52 ≡ true) × (isdigit 50 ≡ true) × (isdigit 59 ≡ false)
unfolding isdigit
digits = (refl, refl, refl)

xdigits :
    (isxdigit 50 ≡ true) × (isxdigit 65 ≡ true) × (isxdigit 102 ≡ true) × (isxdigit 59 ≡ false)
unfolding isxdigit isdigit
xdigits = (refl, refl, refl, refl)

forty_two : decimal (codes "42") ≡ 42
unfolding spell
forty_two = refl

hexadecimal_2af : hexadecimal (codes "2Af") ≡ 0x2AF
unfolding spell
hexadecimal_2af = refl

-- A number above 64 bits whose remainder is above the number before it is not noticed.
rstrtoull_wraps : rstrtoull (codes "18000000000000000;") 16 ≡ some 0x8000000000000000
unfolding rstrtoull isxdigit digxform_16
rstrtoull_wraps = refl

abbrev des_context : EncContext
des_context = cleared des 0 (codes "6b6579206b657921;") [] 0 0

caller_transform-hex_example :
    caller_transform des_context
    ≡ some (success 0, record des_context { key = codes "key key!" ++ replicate 8 0 })
caller_transform-hex_example =
    caller_transform-hex des_context (codes "key key!") (codes ";") (inl refl) refl (omega arith)
      refl

abbrev xor_context : EncContext
xor_context = cleared xor 0 (codes "060504030201;") [] 0 0

caller_transform-hex_backwards_example :
    caller_transform xor_context
    ≡ some (success 0, record xor_context { key = 1 ∷ 2 ∷ 3 ∷ 4 ∷ 5 ∷ 6 ∷ 0 ∷ 0 ∷ replicate 8 0 })
caller_transform-hex_backwards_example =
    caller_transform-hex_backwards xor_context 1 2 3 4 5 6 59 [] refl (omega arith) xdigits.3 refl

-- A Unicode path of one letter, "b", behind the ten bytes of its header.
abbrev unicode_path : Bytes
unicode_path = 0x75 ∷ 0x70 ∷ 11 ∷ 0 ∷ 1 ∷ 0 ∷ 0 ∷ 0 ∷ 0 ∷ 0 ∷ 98 ∷ 0 ∷ []

compared : strncasecmp (codes "abc") (drop 10 unicode_path) 1 ≡ some less
unfolding strncasecmp get_codepoint compare_folds fold_case
compared = refl

path_fields : (field16 unicode_path 0 ≡ some 0x7075) × (field16 unicode_path 2 ≡ some 11)
unfolding field16
path_fields = (refl, refl)

differs : less ≢ same
differs e = cc

match_extra-unfinished_example : match_extra 1000 (codes "abc") 11 unicode_path ≡ some unfinished
match_extra-unfinished_example =
    match_extra-unfinished 1000 (codes "abc") unicode_path 11 11 less (omega arith) path_fields.0
      path_fields.1 compared differs

-- A directory of one file "b" of a Unix file system, with its end.
abbrev directory_end : Bytes
directory_end = 0x50 ∷ 0x4B ∷ 5 ∷ 6 ∷ []

abbrev directory : Bytes
directory =
    0x50 ∷ 0x4B ∷ 1 ∷ 2 ∷ 0 ∷ 3 ∷ replicate 22 0
    ++ (1 ∷ 0 ∷ 0 ∷ 0 ∷ 0 ∷ 0 ∷ replicate 8 0 ++ (7 ∷ 0 ∷ 0 ∷ 0 ∷ 98 ∷ directory_end))

abbrev file : File
file = record { name = codes "b"; offset = 7 }

file-IsHeader : IsHeader directory file directory_end
unfolding field16 field32
file-IsHeader = record {
  version = 0x300;
  extra_length = 0;
  comment_length = 0;
  behind = directory_end;
  pk_signature = refl;
  header_signature = refl;
  version_is = refl;
  regular = refl;
  name_length_is = refl;
  extra_length_is = refl;
  comment_length_is = refl;
  offset_is = refl;
  name_is = refl;
  next_is = refl;
}

end_fields : (field16 directory_end 0 ≡ some 0x4B50) × (field16 directory_end 2 ≡ some 0x0605)
unfolding field16
end_fields = (refl, refl)

zip_search-lookup_example :
    zip_search 2 directory (codes "b") 1 ≡ some (lookup (codes "b") (file ∷ []))
zip_search-lookup_example =
    zip_search-lookup 2 directory (codes "b") (file ∷ []) (directory_end, file-IsHeader, end_fields)
      (omega arith)

abbrev memory : ℕ → Bool
memory size = true

zip_load_data-stored_example :
    zip_load_data memory
      (codes "xy"
        ++ local_header 20 true 0 0xCBF43926 9 1 0
            (codes "b" ++ ([] ++ (codes "123456789" ++ codes "z"))))
      0
      2
    ≡ (if calculate_crc (codes "123456789") == 0xCBF43926 then some (codes "123456789") else none)
zip_load_data-stored_example =
    zip_load_data-stored memory 0 2 20 true 0 0xCBF43926 (codes "xy") (codes "b") []
      (codes "123456789") (codes "z") refl (omega arith) (omega arith) (omega arith) (omega arith)
      refl
