-- ===== src/Cipher/Des.antt =====
-- The block cipher of player/src/enc/cipher/des.c. A `uint64_t` is a number below 2 ^ 64; casts and
-- the shifts that may lose bits are written out.
pub mod Tables
pub mod Permutation
pub mod Feistel
pub mod RoundTrip
pub mod Expand
pub mod Stream
use lavender.Base.{ℕ, zero, suc, ◌+◌, ◌-◌, ◌*◌, ◌/◌, ◌%◌, ◌^◌, Bool, true, false, List, [], ◌∷◌}
use lavender.Base.{if◌then◌else◌, get_or, length, drop, bit_and, bit_or, bit_xor, u32, u64, u8}
use lavender.Base.{◌>>>◌, ◌<<<◌}
use Tables.{des_rounds, ip, fp, expansion, p_table, pc1, pc2, rotations, sboxes}

-- The loop of `_permute` at index `i`, over the rest of the table.
unfoldable pub permute_loop : List ℕ → ℕ → ℕ → ℕ → ℕ → ℕ → ℕ
permute_loop [] table_len i input input_len ret = ret
permute_loop (t ∷ table) table_len i input input_len ret =
    permute_loop table table_len (i + 1) input input_len
      (bit_or ret (bit_and (input >>> (input_len - t)) 1 <<< (table_len - i - 1)))

unfoldable pub permute : List ℕ → ℕ → ℕ → ℕ
permute table input input_len = permute_loop table (length table) 0 input input_len 0

unfoldable pub rotl28 : ℕ → ℕ → ℕ
rotl28 value count = bit_or (bit_and (u32 (value <<< count)) 0xFFFFFFF) (value >>> (28 - count))

-- The loop of `_generate_subkeys`, over the rest of the rotation table.
unfoldable pub subkeys_loop : List ℕ → ℕ → ℕ → List ℕ
subkeys_loop [] c d = []
subkeys_loop (count ∷ rest) c d =
    let c' = rotl28 c count in
    let d' = rotl28 d count in permute pc2 (bit_or (c' <<< 28) d') 56 ∷ subkeys_loop rest c' d'

unfoldable pub generate_subkeys : ℕ → List ℕ
generate_subkeys key =
    let k = permute pc1 key 64 in
    subkeys_loop rotations (bit_and (k >>> 28) 0xFFFFFFF) (bit_and k 0xFFFFFFF)

unfoldable pub substitute : ℕ → ℕ → ℕ
substitute sbox input =
    let row = bit_or (bit_and input 0x20 >>> 4) (bit_and input 1) in
    let col = bit_and input 0x1E >>> 1 in get_or (get_or sboxes sbox []) (bit_or (row <<< 4) col) 0

-- The loop of `_F` at S-box `i`, with `left` boxes to go.
unfoldable pub f_loop : ℕ → ℕ → ℕ → ℕ → ℕ
f_loop zero i e output = output
f_loop (suc left) i e output =
    f_loop left (i + 1) (u64 (e <<< 6))
      (bit_or (u32 (output <<< 4)) (substitute i (u8 (bit_and e 0xFC0000000000 >>> 42))))

unfoldable pub f : ℕ → ℕ → ℕ
f k r = u32 (permute p_table (f_loop 8 0 (bit_xor (permute expansion r 32) k) 0) 32)

-- The loop of `_des` at round `i`, with `left` rounds to go: the two halves at its end.
unfoldable pub des_loop : List ℕ → Bool → ℕ → ℕ → ℕ × ℕ → ℕ × ℕ
des_loop subkeys encrypt zero i halves = halves
des_loop subkeys encrypt (suc left) i (l, r) =
    let subkey = get_or subkeys (if encrypt then i else des_rounds - i - 1) 0 in
    des_loop subkeys encrypt left (i + 1) (r, bit_xor l (f subkey r))

-- The two 32-bit halves of a block.
abbrev pub halves_of : ℕ → ℕ × ℕ
halves_of m = (bit_and (u32 (m >>> 32)) 0xFFFFFFFF, u32 (bit_and m 0xFFFFFFFF))

-- The two halves joined with the second in front.
abbrev pub join_swapped : ℕ × ℕ → ℕ
join_swapped (l, r) = bit_or (u64 (r <<< 32)) l

unfoldable pub des : List ℕ → ℕ → Bool → ℕ
des subkeys m encrypt =
    permute fp (join_swapped (des_loop subkeys encrypt des_rounds 0 (halves_of (permute ip m 64))))
      64
