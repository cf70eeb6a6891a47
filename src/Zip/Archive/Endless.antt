-- ===== src/Zip/Archive/Endless.antt =====
-- A field that the search does not get past.
use lavender.Base.{ℕ, zero, suc, ◌+◌, ◌-◌, ◌^◌, ◌<◌, ◌≡◌, ◌≢◌, refl, Bytes, some, drop, u16, arith}
use lavender.Utf8.{Sign, less, same, greater, strncasecmp}
use lavender.Zip.Archive.{field16, match_extra, unfinished, is_same}

-- Where the first extra field is a Unicode path, and its name does not match the name that is asked for, the loop
-- of `_match_file_name` does not end: after any number of rounds it has no result.
pub match_extra-unfinished :
    (rounds : ℕ) (name hdr : Bytes) (left total_size : ℕ) (sign : Sign)
    → 0 < left
    → field16 hdr 0 ≡ some 0x7075
    → field16 hdr 2 ≡ some total_size
    → strncasecmp name (drop 10 hdr) (u16 (total_size + 2 ^ 16 - 10)) ≡ some sign
    → sign ≢ same
    → match_extra rounds name left hdr ≡ some unfinished
unfolding match_extra is_same
match_extra-unfinished zero name hdr left total_size sign some_left is sized compared differs = refl
match_extra-unfinished (suc rounds) name hdr zero total_size sign some_left is sized compared
      differs =
    absurd (omega arith)
match_extra-unfinished (suc rounds) name hdr (suc left) total_size same some_left is sized compared
      differs =
    absurd (differs refl)
match_extra-unfinished (suc rounds) name hdr (suc left) total_size less some_left is sized compared
      differs =
    rw (is, sized, compared)
      (match_extra-unfinished rounds name hdr (suc left) total_size less some_left is sized compared
        differs)
match_extra-unfinished (suc rounds) name hdr (suc left) total_size greater some_left is sized
      compared differs =
    rw (is, sized, compared)
      (match_extra-unfinished rounds name hdr (suc left) total_size greater some_left is sized
        compared differs)
