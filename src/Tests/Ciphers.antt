-- ===== src/Tests/Ciphers.antt =====
-- Concrete runs of player/src/enc/cipher and of the checksum in player/src/pal/_zip/zip.c.
use lavender.Base.{ℕ, ◌<◌, ◌≤◌, ◌≡◌, refl, true, false, List, [], ◌∷◌, ◌++◌}
use lavender.Base.{Option, some, none, Bytes, codes, length, get_or, take, arith, ◌==◌, ◌⊎◌}
use lavender.Zip.Crc.{calculate_crc, calculate_crc_indirect, crc_loop, crc_byte, crc_nibble}
use lavender.Zip.Crc.Reference.{reference, calculate_crc-reference}
use lavender.Zip.Crc.Indirect.{calculate_crc_indirect-calculate_crc}
use lavender.Cipher.Stream.{Stream, Context}
use lavender.Cipher.Xor.{xor_decrypt, xor_verify}
use lavender.Cipher.Xor.Laws.{IsReadable, xor_verify-xor_decrypt, xor_decrypt_twice}
use lavender.Cipher.Des.{
  permute, des, generate_subkeys, permute_loop, des_loop, f, f_loop, substitute, subkeys_loop,
  rotl28,
}
use lavender.Cipher.Des.RoundTrip.{des_round_trip}
use lavender.Cipher.Des.Stream.{des_decrypt, des_verify, to_bytes}
use lavender.Cipher.Des.Stream.Blocks.{bytes_of}
use lavender.Cipher.Des.Stream.Plain.{IsSealed, padding}
use lavender.Cipher.Des.Stream.Encrypt.{cbc_encrypt, des_decrypt-cbc_encrypt}
use lavender.Cipher.Des.Stream.Verify.{des_verify-des_decrypt}

-- The check value that CRC-32 is published with.
calculate_crc_check : calculate_crc (codes "123456789") ≡ 0xCBF43926
unfolding calculate_crc crc_loop crc_byte crc_nibble
calculate_crc_check = refl

calculate_crc-reference_example : calculate_crc (codes "123456789") ≡ reference (codes "123456789")
calculate_crc-reference_example = calculate_crc-reference (codes "123456789") (omega arith)

abbrev key : Bytes
key = 1 ∷ 2 ∷ 3 ∷ []

abbrev sealed : Stream
sealed = record {
  content = codes "lavender";
  data_length = 8;
  key = key;
  key_length = 3;
  context = none;
}

sealed-IsReadable : IsReadable sealed
sealed-IsReadable = record { has_data = omega arith; has_key = omega arith; key_fits = omega arith }

xor_decrypt_twice_example :
    (out back : Bytes) × (xor_decrypt sealed ≡ some out)
    × (xor_decrypt (record sealed { content = out }) ≡ some back)
    × (length back ≡ 8)
    × ((i : ℕ) → i < 8 → get_or back i 0 ≡ get_or (codes "lavender") i 0)
xor_decrypt_twice_example = xor_decrypt_twice sealed sealed-IsReadable

xor_verify-xor_decrypt_example :
    (out : Bytes) × (xor_decrypt sealed ≡ some out)
    × (xor_verify sealed 0xCBF43926 ≡ some (0xCBF43926 == calculate_crc out))
xor_verify-xor_decrypt_example = xor_verify-xor_decrypt sealed sealed-IsReadable 0xCBF43926

-- A source whose state counts nothing and that gives the bytes of a text.
abbrev from_text : ℕ → ℕ → Option (ℕ × ℕ)
from_text s i = some (get_or (codes "123456789") i 0, s)

abbrev Anything : ℕ → Type 0
Anything s = s ≡ 5

calculate_crc_indirect-calculate_crc_example :
    (s' : ℕ) × (calculate_crc_indirect from_text 5 9 ≡ some (calculate_crc (codes "123456789"), s'))
    × (s' ≡ 5)
calculate_crc_indirect-calculate_crc_example =
    calculate_crc_indirect-calculate_crc Anything from_text (codes "123456789") 5 refl
      (λ s j e h. (s, refl, e))

-- FIPS 46's block, under the key 133457799BBCDFF1.
des_published :
    des (generate_subkeys 0x133457799BBCDFF1) 0x0123456789ABCDEF true ≡ 0x85E813540F0AB405
unfolding des generate_subkeys permute permute_loop des_loop f f_loop substitute subkeys_loop rotl28
des_published = refl

abbrev subkeys : List ℕ
subkeys = generate_subkeys 0x133457799BBCDFF1

des_round_trip_example :
    (des subkeys (des subkeys 0x0123456789ABCDEF true) false ≡ 0x0123456789ABCDEF)
    × (des subkeys (des subkeys 0x0123456789ABCDEF false) true ≡ 0x0123456789ABCDEF)
des_round_trip_example = des_round_trip subkeys 0x0123456789ABCDEF (omega arith)

abbrev context : Context
context = record { subkeys = subkeys; at_pos = 0; at_pt = 0 }

-- One full block and one with three bytes of text, encrypted.
abbrev encrypted : Stream
encrypted = record {
  content = bytes_of (
      0x1122334455667788
      ∷ cbc_encrypt subkeys 8 0x1122334455667788 (0x6C6176656E646572 ∷ 0x6162630000000005 ∷ []));
  data_length = 24;
  key = codes "8 bytes!";
  key_length = 8;
  context = some context;
}

encrypted_length :
    24
    ≡ length (
        bytes_of (
          0x1122334455667788
          ∷ cbc_encrypt subkeys 8 0x1122334455667788
              (0x6C6176656E646572 ∷ 0x6162630000000005 ∷ [])))
unfolding bytes_of cbc_encrypt to_bytes
encrypted_length = refl

des_decrypt-cbc_encrypt_example :
    des_decrypt encrypted
    ≡ some (
      record encrypted { data_length = 11 },
      true,
      bytes_of (0x6C6176656E646572 ∷ []) ++ take 3 (to_bytes 0x6162630000000005),
    )
des_decrypt-cbc_encrypt_example =
    des_decrypt-cbc_encrypt encrypted context 0x1122334455667788 (0x6C6176656E646572 ∷ [])
      0x6162630000000005 (omega arith) (omega arith) refl refl encrypted_length

abbrev two_blocks : Stream
two_blocks = record {
  content = bytes_of (1 ∷ 2 ∷ 3 ∷ []);
  data_length = 24;
  key = codes "8 bytes!";
  key_length = 8;
  context = some context;
}

two_blocks-IsSealed : IsSealed 1 (2 ∷ []) 3 context two_blocks
two_blocks-IsSealed = record {
  blocks = omega arith;
  content_is = refl;
  length_is = refl;
  context_is = refl;
}

des_verify-des_decrypt_example :
    ((8 < padding 1 (2 ∷ []) 3 context two_blocks) × (des_verify two_blocks 7 ≡ some false))
    ⊎ ((padding 1 (2 ∷ []) 3 context two_blocks ≤ 8)
        × (s' : Stream) × (out : Bytes) × (des_decrypt two_blocks ≡ some (s', true, out))
        × (s'.data_length ≡ length out)
        × (des_verify two_blocks 7 ≡ some (7 == calculate_crc out)))
des_verify-des_decrypt_example = des_verify-des_decrypt two_blocks-IsSealed refl 7
