-- ===== src/Snd/Seq/Fed.antt =====
-- The buffer of player/src/snd/seq.c, fed after each byte, hands out the bytes of the track.
use lavender.Base.{
  ℕ, zero, suc, ◌+◌, ◌-◌, ◌*◌, ◌/◌, ◌%◌, ◌^◌, ◌≤◌, ◌<◌, ◌≡◌, refl, ap, ◌∙◌, arith, ◌≢◌, ◌⊎◌, inl,
  inr, Bool, true, false,
}
use lavender.Base.{Option, some, Bytes, get_elem?, length, u32, u64, ltb, ◌==◌, not, ◌&&◌}
use lavender.Cipher.Des.Stream.{◌>>=◌}
use lavender.Cipher.InPlace.{store}
use lavender.Snd.Buf.{
  SndBuffer, request_packet, pass_byte, read_loop, sndbuf_read, sndbuf_getc, sndbuf_next_packet,
}
use lavender.Snd.Seq.{
  Sequencer, read_asset, get_next_packet_start, feed_packet, feed_from, sndseq_feed,
}
use lavender.Snd.Seq.Splice.{
  splice, store-splice, length-splice, get_elem?-splice, get_elem?-splice_outside,
  get_elem?-read_asset, length-read_asset, length-read_asset_most,
}

-- A buffer as `sndseq_start` makes it, with its flags.
abbrev pub buffer_at : (reqpkt ackpkt nomore : Bool) → ℕ → Bytes → SndBuffer
buffer_at r a n p bytes = record {
  size = 4096;
  position = p;
  buffer_data = bytes;
  reqpkt = r;
  ackpkt = a;
  nomore = n;
}

module _ (r a n : Bool) (p c : ℕ) (bytes : Bytes) (small : p + 1 < 2 ^ 32)
    (at : get_elem? bytes (p % 4096) ≡ some c) where
  next_position : u32 (p + 1) ≡ p + 1
  next_position = omega arith

  pub sndbuf_getc-inside :
      (p + 1) % 2048 ≢ 0
      → sndbuf_getc (buffer_at r a n p bytes) ≡ some (some c, buffer_at r a n (p + 1) bytes)
  unfolding sndbuf_getc sndbuf_read read_loop pass_byte
  sndbuf_getc-inside inside =
      let half : (2048 == p % 4096 + 1) ≡ false = ground arith in
      let whole : (4096 == p % 4096 + 1) ≡ false = ground arith in
      rw (sndbuf_getc, at, half, whole, next_position) refl

module _ (r a : Bool) (p c : ℕ) (bytes : Bytes) (small : p + 1 < 2 ^ 32)
    (at : get_elem? bytes (p % 4096) ≡ some c) (ready : (r && not a) ≡ false) where
  pub sndbuf_getc-crossing :
      (p + 1) % 2048 ≡ 0
      → sndbuf_getc (buffer_at r a false p bytes)
        ≡ some (some c, buffer_at true false false (p + 1) bytes)
  unfolding sndbuf_getc sndbuf_read read_loop pass_byte request_packet
  sndbuf_getc-crossing crossing =
      let next : u32 (p + 1) ≡ p + 1 = omega arith in
      let split : (p % 4096 + 1 ≡ 2048) ⊎ (p % 4096 + 1 ≡ 4096) = omega arith in
      elim split [
        | inl e ↦
            let half : (2048 == p % 4096 + 1) ≡ true = ground arith in
            let whole : (4096 == p % 4096 + 1) ≡ false = ground arith in
            rw (sndbuf_getc, at, half, ready, whole, next) refl
        | inr e ↦
            let half : (2048 == p % 4096 + 1) ≡ false = ground arith in
            let whole : (4096 == p % 4096 + 1) ≡ true = ground arith in
            rw (sndbuf_getc, at, half, whole, ready, next) refl
      ]

-- The place of the packet that is not being read.
other_packet : (q : ℕ) → q ≤ 1 → u64 (2048 * u64 (1 + 2 ^ 64 - q)) ≡ (1 - q) * 2048
other_packet zero h = refl
other_packet (suc zero) h = refl
other_packet (suc (suc q)) h = absurd (omega arith)

module _ (file : Bytes) (start len : ℕ) (inside : start + len ≤ length file)
    (short : len < 2 ^ 31) where
  abbrev pub sequencer : SndBuffer → Sequencer
  sequencer b = record { file = file; track_start = start; track_length = len; buffer = b }

  -- The buffer holds the packet of a number and the one behind it, as far as they are in the track.
  abbrev pub Holds : ℕ → Bytes → Type 0
  Holds q bytes =
      (j : ℕ)
      → q * 2048 ≤ j
      → j < q * 2048 + 4096
      → j < len
      → get_elem? bytes (j % 4096) ≡ get_elem? file (start + j)

  -- The flags where no packet is due: none is asked for, or the one asked for is there, or there is none.
  abbrev pub Settled : (r a n : Bool) → ℕ → Type 0
  Settled r a n q =
      ((r && not a && not n) ≡ false)
      × (((n ≡ false) × ((r && not a) ≡ false)) ⊎ (len < q * 2048 + 2048))

  -- A packet is read over the one that is passed.
  feed_packet-Holds :
      (p size : ℕ) (bytes : Bytes)
      → p % 2048 ≡ 0
      → p < len
      → length bytes ≡ 4096
      → size ≤ 2048
      → (size ≡ 2048) ⊎ (p + 2048 + size ≡ len)
      → p + 2048 + size ≤ len
      → Holds (p / 2048 - 1) bytes
      → 1 ≤ p / 2048
      → (bytes' : Bytes) × (feed_packet
            (sequencer (buffer_at true false false p bytes))
            (p + 2048)
            size
          ≡ some (sequencer (buffer_at true true false p bytes')))
        × (length bytes' ≡ 4096)
        × Holds (p / 2048) bytes'
  unfolding feed_packet sndbuf_next_packet
  feed_packet-Holds p size bytes border going room most whole fits holds behind =
      let b = buffer_at true false false p bytes in
      let got_bytes = read_asset file (start + (p + 2048)) size in
      let at = (1 - p % 4096 / 2048) * 2048 in
      let most_bytes = length-read_asset_most file (start + (p + 2048)) size in
      let place : sndbuf_next_packet b ≡ at = other_packet (p % 4096 / 2048) (omega arith) in
      let room' : at + length got_bytes ≤ length bytes = omega arith in
      (
        splice bytes at got_bytes,
        ap after
            (ap (λ (k : ℕ). store bytes k got_bytes) place ∙ store-splice bytes at got_bytes room'),
        length-splice bytes at got_bytes room' ∙ room,
        λ j low high in_track.
            (let split : (j < p + 2048) ⊎ (p + 2048 ≤ j) = omega arith in
              elim split [
                | inl old ↦
                    let apart : (j % 4096 < at) ⊎ (at + length got_bytes ≤ j % 4096) =
                      omega arith in
                    get_elem?-splice_outside bytes at got_bytes room' (j % 4096) apart
                    ∙ holds j (omega arith) (omega arith) in_track
                | inr new ↦
                    let k = j - (p + 2048) in
                    let there : j % 4096 ≡ at + k = omega arith in
                    let below : k < size = omega arith in
                    let from : j % 4096 - at ≡ k = omega arith in
                    let same : start + (p + 2048) + k ≡ start + j = omega arith in
                    let long =
                      length-read_asset file (start + (p + 2048)) size k below (omega arith) in
                    get_elem?-splice bytes at got_bytes room' (j % 4096) (omega arith) (omega arith)
                    ∙ ap (get_elem? got_bytes) from
                    ∙ get_elem?-read_asset file (start + (p + 2048)) size k below
                    ∙ ap (get_elem? file) same
              ]),
      )
    where
      after : Option Bytes → Option Sequencer
      after o = o >>= (λ bytes'. some (sequencer (buffer_at true true false p bytes')))

  pub feed_idle :
      (r a n : Bool) (p : ℕ) (bytes : Bytes)
      → (r && not a && not n) ≡ false
      → sndseq_feed (sequencer (buffer_at r a n p bytes))
        ≡ some (sequencer (buffer_at r a n p bytes))
  unfolding sndseq_feed
  feed_idle r a n p bytes idle = rw (idle, sndseq_feed) refl

  -- What feeding leaves at the border of a packet.
  abbrev pub Fed : ℕ → Bytes → Type 0
  Fed p bytes =
      (r : Bool) × (a : Bool) × (n : Bool) × (bytes' : Bytes) × (sndseq_feed
          (sequencer (buffer_at true false false p bytes))
        ≡ some (sequencer (buffer_at r a n p bytes')))
      × (length bytes' ≡ 4096)
      × Holds (p / 2048) bytes'
      × Settled r a n (p / 2048)

  pub feed-Fed :
      (p : ℕ) (bytes : Bytes)
      → p % 2048 ≡ 0
      → 1 ≤ p / 2048
      → p ≤ len
      → length bytes ≡ 4096
      → Holds (p / 2048 - 1) bytes
      → Fed p bytes
  unfolding sndseq_feed get_next_packet_start feed_from
  feed-Fed p bytes border behind going room holds =
      let next : u32 (2048 * (p / 2048 + 1)) ≡ p + 2048 = omega arith in
      let split : (len < p + 2048)
          ⊎ ((p + 2048 ≤ len) × (len < p + 2048 + 2048))
          ⊎ (p + 2048 + 2048 ≤ len) =
        omega arith in
      elim split [
        | inl over ↦
            let test : ltb len (p + 2048) ≡ true = ground arith in
            (
              true,
              false,
              true,
              bytes,
              from next ∙ rw (feed_from, test) refl,
              room,
              (λ j low high in_track. holds j (omega arith) (omega arith) in_track),
              (refl, inr (omega arith)),
            )
        | inr (inl (some_left, last)) ↦
            let test : ltb len (p + 2048) ≡ false = ground arith in
            let test' : ltb len (p + 2048 + 2048) ≡ true = ground arith in
            let (bytes', run, room', holds') =
              feed_packet-Holds p (len - (p + 2048)) bytes border (omega arith) room (omega arith)
                (inr (omega arith)) (omega arith) holds behind in
            (
              true,
              true,
              false,
              bytes',
              from next ∙ rw (feed_from, test, test') run,
              room',
              holds',
              (refl, inl (refl, refl)),
            )
        | inr (inr more) ↦
            let test : ltb len (p + 2048) ≡ false = ground arith in
            let test' : ltb len (p + 2048 + 2048) ≡ false = ground arith in
            let (bytes', run, room', holds') =
              feed_packet-Holds p 2048 bytes border (omega arith) room (omega arith) (inl refl) more
                holds behind in
            (
              true,
              true,
              false,
              bytes',
              from next ∙ rw (feed_from, test, test') run,
              room',
              holds',
              (refl, inl (refl, refl)),
            )
      ]
    where
      from :
          {place : ℕ}
          → u32 (2048 * (p / 2048 + 1)) ≡ place
          → sndseq_feed (sequencer (buffer_at true false false p bytes))
            ≡ feed_from (sequencer (buffer_at true false false p bytes)) place
      from e = ap (feed_from (sequencer (buffer_at true false false p bytes))) e
