-- ===== src/Tests/Keys.antt =====
-- Concrete runs of player/src/enc/keyfmt.
use lavender.Base.{
  ◌+◌, ◌*◌, ◌^◌, ◌<◌, ◌≡◌, refl, true, some, ℕ, Bytes, codes, ◌++◌, ◌∷◌, [], arith, bit_xor,
}
use lavender.Cipher.Des.Expand.{expand56}
use lavender.Key.Le.{le32b6d_decode}
use lavender.Key.Le.RoundTrip.{local_of, external_of, le32b6d_decode-packed}
use lavender.Key.Pkey.{
  pkey25_validate_format, pkey25raw_decode, pkey25xor12_decode, validate_loop, is_letter, strchr,
}
use lavender.Key.Pkey.Validated.{validated_decode}
use lavender.Key.Pkey.Printed.{print_key, print_key-decode}

le32b6d_decode-packed_example :
    le32b6d_decode (local_of 0x123456 0xABCDEF 2 1) (external_of 0x123456 0xABCDEF 2 1)
    ≡ 0xABCDEF * 2 ^ 24 + 0x123456
le32b6d_decode-packed_example =
    le32b6d_decode-packed 0x123456 0xABCDEF 2 1 (omega arith) (omega arith) (omega arith)
      (omega arith)

abbrev product_key : Bytes
product_key = codes "2346B-9BCDF-GHJKM-PQRTV-WXY22" ++ 0 ∷ []

product_key_valid : pkey25_validate_format product_key ≡ some true
unfolding pkey25_validate_format validate_loop is_letter strchr
product_key_valid = refl

validated_decode_example :
    (udata ekey : ℕ) × (pkey25raw_decode product_key ≡ some (udata, ekey))
    × (udata < 24 ^ 13)
    × (ekey < 24 ^ 12)
validated_decode_example = validated_decode product_key product_key_valid

print_key-decode_example :
    (pkey25_validate_format (print_key 987654321 123456789) ≡ some true)
    × (pkey25raw_decode (print_key 987654321 123456789) ≡ some (987654321, 123456789))
    × (pkey25xor12_decode (print_key 987654321 123456789)
        ≡ some (expand56 (bit_xor 123456789 987654321)))
print_key-decode_example = print_key-decode 987654321 123456789 (omega arith) (omega arith)
