-- ===== src/Zip/Data/Stored.antt =====
-- A file that an archive stores, loaded.
use mathlib.Core.List.{append_assoc}
use lavender.Base.{
  ℕ, ◌+◌, ◌/◌, ◌%◌, ◌^◌, ◌<◌, ◌≡◌, refl, ap, sym, ◌∙◌, Bool, true, false, Bytes, [], ◌∷◌, ◌++◌,
}
use lavender.Base.{
  Option, none, some, arith, leb, ◌==◌, if◌then◌else◌, take, drop, length, length-append,
  drop-append,
}
use lavender.Base.{take-append_le, take-all, Bool-cases, inl, inr}
use lavender.Zip.Crc.{calculate_crc}
use lavender.Zip.Data.{seek_read, locate, get_data, zip_load_data, Located, u16_at, u32_at}

abbrev le16_before : ℕ → Bytes → Bytes
le16_before n rest = n % 256 ∷ n / 256 % 256 ∷ rest

abbrev le32_before : ℕ → Bytes → Bytes
le32_before n rest = le16_before n (le16_before (n / 2 ^ 16) rest)

-- A local header of a stored file, with the lengths of the name and of the extra fields, and with or without the
-- flag for UTF-8.
abbrev pub local_header : ℕ → Bool → ℕ → ℕ → ℕ → ℕ → ℕ → Bytes → Bytes
local_header version utf8 moment crc32 size name_length extra_length rest = le16_before 0x4B50 (
    le16_before 0x0403 (
      le16_before version (
        le16_before (if utf8 then 2 ^ 11 else 0) (
          le16_before 0 (
            le32_before moment (
              le32_before crc32 (
                le32_before size (
                  le32_before size (le16_before name_length (le16_before extra_length rest))))))))))

seek_read-append :
    (before bytes after : Bytes) (offset size : ℕ)
    → length before ≡ offset
    → length bytes ≡ size
    → seek_read (before ++ (bytes ++ after)) offset size ≡ some bytes
unfolding seek_read
seek_read-append before bytes after offset size at long =
    let dropped : drop offset (before ++ (bytes ++ after)) ≡ bytes ++ after =
      ap (λ (n : ℕ). drop n (before ++ (bytes ++ after))) (sym at)
      ∙ drop-append before (bytes ++ after) in
    let room : leb size (length (bytes ++ after)) ≡ true =
      ground (arith, length-append bytes after) in
    let taken : take size (bytes ++ after) ≡ bytes =
      take-append_le size bytes after (omega arith) ∙ take-all size bytes long in
    rw (dropped, room, taken) refl

-- The fields that `_get_data` gives of such a header.
fields :
    (olfh moment crc32 size name_length extra_length : ℕ)
    → crc32 < 2 ^ 32
    → size < 2 ^ 32
    → name_length < 2 ^ 16
    → extra_length < 2 ^ 16
    → (header : Bytes) → header ≡ local_header 0 false moment crc32 size name_length extra_length []
    → ◌≡◌ {A = Option Located}
        (some (record {
          place = olfh + 30 + u16_at header 26 + u16_at header 28;
          size = u32_at header 22;
          crc32 = u32_at header 14;
        }))
        (some
          (record { place = olfh + 30 + name_length + extra_length; size = size; crc32 = crc32 }))
fields olfh moment crc32 size name_length extra_length c s n e header h =
    let place : olfh + 30 + u16_at header 26 + u16_at header 28
        ≡ olfh + 30 + name_length + extra_length =
      rw h (omega arith) in
    let long : u32_at header 22 ≡ size = rw h (omega arith) in
    let sum : u32_at header 14 ≡ crc32 = rw h (omega arith) in
    λ i. some (record { place = place i; size = long i; crc32 = sum i })

locate-local_header :
    (olfh version : ℕ) (utf8 : Bool) (moment crc32 size name_length extra_length : ℕ)
    → crc32 < 2 ^ 32
    → size < 2 ^ 32
    → name_length < 2 ^ 16
    → extra_length < 2 ^ 16
    → locate olfh (local_header version utf8 moment crc32 size name_length extra_length [])
      ≡ some (record { place = olfh + 30 + name_length + extra_length; size = size; crc32 = crc32 })
unfolding locate
locate-local_header olfh version true moment crc32 size name_length extra_length c s n e =
    fields olfh moment crc32 size name_length extra_length c s n e
      (local_header 0 false moment crc32 size name_length extra_length []) refl
locate-local_header olfh version false moment crc32 size name_length extra_length c s n e =
    fields olfh moment crc32 size name_length extra_length c s n e
      (local_header 0 false moment crc32 size name_length extra_length []) refl

-- A file of an archive that is stored without compression is loaded whole, whatever stands before and behind it in
-- the file, its name and its extra fields are, where `malloc` gives memory and the checksum of its local header is
-- right; where the checksum is not, `zip_load_data` gives NULL.
pub zip_load_data-stored :
    (memory : ℕ → Bool) (fbase olfh version : ℕ) (utf8 : Bool) (moment crc32 : ℕ)
    (before name extra content after : Bytes)
    → length before ≡ fbase + olfh
    → crc32 < 2 ^ 32
    → length content < 2 ^ 32
    → length name < 2 ^ 16
    → length extra < 2 ^ 16
    → memory (length content) ≡ true
    → zip_load_data memory
        (before
          ++ local_header version utf8 moment crc32
              (length content)
              (length name)
              (length extra)
              (name ++ (extra ++ (content ++ after))))
        fbase
        olfh
      ≡ (if calculate_crc content == crc32 then some content else none)
unfolding zip_load_data get_data
zip_load_data-stored memory fbase olfh version utf8 moment crc32 before name extra content after at
      c s n e given =
    let header =
      local_header version utf8 moment crc32 (length content) (length name) (length extra) [] in
    let rest = name ++ (extra ++ (content ++ after)) in
    let first : seek_read (before ++ (header ++ rest)) (fbase + olfh) 30 ≡ some header =
      seek_read-append before header rest (fbase + olfh) 30 at refl in
    let located =
      locate-local_header olfh version utf8 moment crc32 (length content) (length name)
        (length extra) c s n e in
    let start = before ++ (header ++ (name ++ extra)) in
    let parts : before ++ (header ++ rest) ≡ start ++ (content ++ after) =
      ap (λ (t : Bytes). before ++ (header ++ t)) (sym (append_assoc name extra (content ++ after)))
      ∙ sym (append_assoc before (header ++ (name ++ extra)) (content ++ after)) in
    let place : length start ≡ fbase + (olfh + 30 + length name + length extra) =
      omega
        (arith, length-append before (header ++ (name ++ extra)), length-append name extra, at) in
    let second : seek_read (before ++ (header ++ rest))
          (fbase + (olfh + 30 + length name + length extra)) (length content)
        ≡ some content =
      ap
        (λ (t : Bytes).
          seek_read t (fbase + (olfh + 30 + length name + length extra)) (length content))
        parts
      ∙ seek_read-append start content after (fbase + (olfh + 30 + length name + length extra))
          (length content) place refl in
    elim (Bool-cases (calculate_crc content == crc32)) [
      | inl right ↦ rw (first, located, given, second, right) refl
      | inr wrong ↦ rw (first, located, given, second, wrong) refl
    ]
