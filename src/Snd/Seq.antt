-- ===== src/Snd/Seq.antt =====
-- The feeding of the buffer of player/src/snd/seq.c. The file of the asset is the list of its bytes.
pub mod Splice
pub mod Fed
pub mod Track
use lavender.Base.{
  ℕ, zero, suc, ◌+◌, ◌-◌, ◌*◌, ◌/◌, Bool, true, false, [], ◌∷◌, ◌++◌, Option, some, none, Bytes,
}
use lavender.Base.{ltb, leb, ◌&&◌, not, if◌then◌else◌, take, drop, length, u32}
use lavender.Cipher.Des.Stream.{◌>>=◌}
use lavender.Cipher.InPlace.{store}
use lavender.Snd.Buf.{SndBuffer, packet_size, sndbuf_getc, sndbuf_next_packet}

-- The static variables of the sequencer that feeding reads.
pub record Sequencer : Type 0 where
  pub file : Bytes
  pub track_start : ℕ
  pub track_length : ℕ
  pub buffer : SndBuffer

-- BUFFER_SIZE
abbrev pub buffer_size : ℕ
buffer_size = 4096

-- `pal_read_asset`, which reads as many bytes as there are of those asked for.
abbrev pub read_asset : Bytes → ℕ → ℕ → Bytes
read_asset file at size = take size (drop at file)

unfoldable pub get_next_packet_start : SndBuffer → ℕ
get_next_packet_start b = u32 (packet_size b * (b.position / packet_size b + 1))

-- The end of `sndseq_feed`: a packet is read.
unfoldable pub feed_packet : Sequencer → (packet_start size : ℕ) → Option Sequencer
feed_packet s packet_start size = do
  bytes ←
      store s.buffer.buffer_data (sndbuf_next_packet s.buffer)
        (read_asset s.file (s.track_start + packet_start) size)
  some (record s { buffer = record s.buffer { buffer_data = bytes; ackpkt = true } })

-- `sndseq_feed` where a packet is asked for, from its start in the track.
unfoldable pub feed_from : Sequencer → ℕ → Option Sequencer
unfolding feed_packet
feed_from s packet_start =
    if ltb s.track_length packet_start
    then some (record s { buffer = record s.buffer { nomore = true } })
    else if ltb s.track_length (packet_start + packet_size s.buffer)
    then feed_packet s packet_start (s.track_length - packet_start)
    else feed_packet s packet_start (packet_size s.buffer)

-- `sndseq_feed`, where the file can be read.
unfoldable pub sndseq_feed : Sequencer → Option Sequencer
unfolding get_next_packet_start feed_from
sndseq_feed s =
    let b = s.buffer in
    if not (b.reqpkt && not b.ackpkt && not b.nomore)
    then some s
    else feed_from s (get_next_packet_start b)

-- The end of `sndseq_start`: the buffer holds the start of the track, over what `malloc` gave.
unfoldable pub fill_buffer : Bytes → Bytes → ℕ → ℕ → Option Sequencer
fill_buffer memory file track_start track_length = do
  bytes ← store memory 0 (read_asset file track_start buffer_size)
  some (record {
    file = file;
    track_start = track_start;
    track_length = track_length;
    buffer = record {
      size = buffer_size;
      position = 0;
      buffer_data = bytes;
      reqpkt = false;
      ackpkt = false;
      nomore = false;
    };
  })

-- A byte is read and the buffer fed, so many times: the bytes, where each is there.
unfoldable pub read_fed : ℕ → Sequencer → Option (Bytes × Sequencer)
unfolding sndseq_feed
read_fed zero s = some ([], s)
read_fed (suc n) s = do
  (byte, b) ← sndbuf_getc s.buffer
  fed ← sndseq_feed (record s { buffer = b })
  (bytes, s') ← read_fed n fed
  elim byte [ none ↦ none | some c ↦ some (c ∷ bytes, s') ]
