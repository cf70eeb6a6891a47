-- ===== src/Snd/Buf.antt =====
-- The buffer of two packets of player/src/snd/buf.c. A read outside the data makes the result `none`.
use lavender.Base.{
  ℕ, zero, suc, ◌+◌, ◌-◌, ◌*◌, ◌/◌, ◌%◌, ◌^◌, Bool, true, false, [], ◌∷◌, Option, some, none, Bytes,
}
use lavender.Base.{◌==◌, ◌&&◌, not, if◌then◌else◌, get_elem?, u32, u64}
use lavender.Cipher.Des.Stream.{◌>>=◌}

-- `snd_buffer`, with SNDBUFF_REQPKT, SNDBUFF_ACKPKT and SNDBUFF_NOMORE of its `flags`.
pub record SndBuffer : Type 0 where
  pub size : ℕ
  pub position : ℕ
  pub buffer_data : Bytes
  pub reqpkt : Bool
  pub ackpkt : Bool
  pub nomore : Bool

-- SND_PACKET_SIZE
abbrev pub packet_size : SndBuffer → ℕ
packet_size b = b.size / 2

unfoldable pub request_packet : SndBuffer → SndBuffer × Bool
request_packet b =
    if b.nomore
    then (b, true)
    else if b.reqpkt && not b.ackpkt
    then (b, false)
    else (record b { ackpkt = false; reqpkt = true }, true)

-- The tests at the end of a round of `sndbuf_read`: the buffer, the place in it and whether the loop goes on.
unfoldable pub pass_byte : SndBuffer → ℕ → SndBuffer × ℕ × Bool
unfolding request_packet
pass_byte b position =
    let first = if packet_size b == position then request_packet b else (b, true) in
    if not first.1
    then (first.0, position, false)
    else if b.size == position
    then (let second = request_packet first.0 in (second.0, 0, second.1))
    else (first.0, position, true)

-- The loop of `sndbuf_read`, with so many bytes left: the bytes read, the buffer, and whether all are read.
unfoldable pub read_loop : ℕ → ℕ → SndBuffer → Option (Bytes × SndBuffer × Bool)
unfolding pass_byte
read_loop zero position b = some ([], b, true)
read_loop (suc left) position b = do
  byte ← get_elem? b.buffer_data position
  let passed = pass_byte (record b { position = u32 (b.position + 1) }) (position + 1)
  let rest = read_loop left passed.1 passed.0
  if not passed.2
      then some (byte ∷ [], passed.0, false)
      else (do (bytes, b', whole) ← rest; some (byte ∷ bytes, b', whole))

unfoldable pub sndbuf_read : SndBuffer → ℕ → Option (Bytes × SndBuffer × Bool)
unfolding read_loop
sndbuf_read b size = read_loop size (b.position % b.size) b

-- The result of `sndbuf_getc`: the byte, or `none` for -1.
abbrev pub got : Bytes → Bool → Option ℕ
got (byte ∷ bytes) true = some byte
got bytes whole = none

unfoldable pub sndbuf_getc : SndBuffer → Option (Option ℕ × SndBuffer)
unfolding sndbuf_read
sndbuf_getc b = do (bytes, b', whole) ← sndbuf_read b 1; some (got bytes whole, b')

unfoldable pub sndbuf_peek : SndBuffer → Option ℕ
sndbuf_peek b = get_elem? b.buffer_data (b.position % b.size)

-- `sndbuf_next_packet`: where the packet begins that is not being read.
unfoldable pub sndbuf_next_packet : SndBuffer → ℕ
sndbuf_next_packet b = u64 (packet_size b * u64 (1 + 2 ^ 64 - b.position % b.size / packet_size b))
