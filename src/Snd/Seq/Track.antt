-- ===== src/Snd/Seq/Track.antt =====
-- The bytes that player/src/snd/seq.c and buf.c hand out are those of the track, in their order.
use lavender.Base.{ℕ, ◌+◌, ◌/◌, ◌^◌, ◌≤◌, ◌<◌, ◌≡◌, Bool}
use lavender.Base.{some, Bytes, length}
use lavender.Snd.Buf.{SndBuffer, sndbuf_getc}
use lavender.Snd.Seq.{sndseq_feed}
use lavender.Snd.Seq.Fed.{buffer_at, sequencer, Holds, Settled}

module _ (file : Bytes) (start len : ℕ) (inside : start + len ≤ length file)
    (short : len < 2 ^ 31) where
  -- The flags and the data behind one byte.
  Next : ℕ → Bool → Bool → Bool → Bytes → ℕ → Type 0
  Next p r a n bytes c =
      (r' : Bool) × (a' : Bool) × (n' : Bool) × (bytes' : Bytes) × (b' : SndBuffer) × (sndbuf_getc
          (buffer_at r a n p bytes)
        ≡ some (some c, b'))
      × (sndseq_feed (sequencer file start len inside short b')
          ≡ some (sequencer file start len inside short (buffer_at r' a' n' (p + 1) bytes')))
      × (length bytes' ≡ 4096)
      × Holds file start len inside short ((p + 1) / 2048) bytes'
      × Settled file start len inside short r' a' n' ((p + 1) / 2048)
