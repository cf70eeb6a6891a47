-- ===== src/Snd/Midi.antt =====
-- The events of player/src/snd/midi.c, read from the buffer of buf.c.
pub mod Vlq
use lavender.Base.{
  ℕ, zero, suc, ◌+◌, ◌-◌, ◌*◌, ◌/◌, ◌^◌, Bool, true, false, [], ◌∷◌, ◌++◌, Option, some, none,
  Bytes,
}
use lavender.Base.{
  ltb, leb, ◌==◌, ◌||◌, if◌then◌else◌, bit_and, bit_or, u8, u32, u64, ◌<<<◌, ◌>>>◌, length,
}
use lavender.Cipher.Des.Stream.{◌>>=◌}
use lavender.Snd.Buf.{SndBuffer, sndbuf_getc, sndbuf_peek, sndbuf_read}

-- The loop of `restore_vlq`, from the last byte to the first one.
unfoldable pub restore_loop : ℕ → ℕ → Bytes
restore_loop zero value = []
restore_loop (suc i) value = restore_loop i (value >>> 7) ++ bit_or 0x80 (bit_and value 0x7F) ∷ []

unfoldable pub clear_last : Bytes → Bytes
clear_last [] = []
clear_last (x ∷ []) = bit_and x 0x7F ∷ []
clear_last (x ∷ y ∷ bytes) = x ∷ clear_last (y ∷ bytes)

-- `restore_vlq`, the bytes it writes.
unfoldable pub restore_vlq : ℕ → ℕ → Bytes
unfolding restore_loop clear_last
restore_vlq value size = clear_last (restore_loop size value)

-- The loop of `midi_read_vlq`, with so many rounds left: the number of bytes and the value, or `none` where
-- a byte is not there.
unfoldable pub vlq_loop : ℕ → (count out : ℕ) → SndBuffer → Option (Option (ℕ × ℕ) × SndBuffer)
vlq_loop zero count out buffer = some (some (count, out), buffer)
vlq_loop (suc rounds) count out buffer = do
  (got_byte, buffer') ← sndbuf_getc buffer
  elim got_byte [
    | none ↦ some (none, buffer')
    | some byte ↦
        let out' = bit_or (u32 (out <<< 7)) (bit_and byte 0x7F) in
        let rest = vlq_loop rounds (suc count) out' buffer' in
        if bit_and byte 0x80 == 0 then some (some (suc count, out'), buffer') else rest
  ]

-- The end of `midi_read_vlq`: more than four bytes are an error.
unfoldable pub check_count : Option (ℕ × ℕ) → Option (ℕ × ℕ)
check_count none = none
check_count (some r) = if ltb 4 r.0 then none else some r

-- `midi_read_vlq`: the number of bytes and the value, or `none` for 0.
unfoldable pub midi_read_vlq : SndBuffer → Option (Option (ℕ × ℕ) × SndBuffer)
unfolding vlq_loop check_count
midi_read_vlq buffer = do (r, buffer') ← vlq_loop 5 0 0 buffer; some (check_count r, buffer')

-- `midi_event`. `msg` is what the event has written to `msg_`.
pub record MidiEvent : Type 0 where
  pub delta : ℕ
  pub status : ℕ
  pub msg : Bytes
  pub msg_length : ℕ

-- MAX_MSGLEN
abbrev pub max_msglen : ℕ
max_msglen = 1024

-- The result of `midi_read_event`, zero for an error, with the event and the buffer.
abbrev pub ReadEvent : Type 0
ReadEvent = ℕ × MidiEvent × SndBuffer

-- TRY_GETC
unfoldable pub try_getc :
    SndBuffer → MidiEvent → (ℕ → SndBuffer → Option ReadEvent) → Option ReadEvent
try_getc buffer event next = do
  (got_byte, buffer') ← sndbuf_getc buffer
  elim got_byte [ none ↦ some (0, event, buffer') | some byte ↦ next byte buffer' ]

-- The number of data bytes of a message that has one, two or none.
unfoldable pub message_length : ℕ → Option ℕ
message_length status =
    if (status == 0xF6)
      || (status == 0xF8)
      || (status == 0xFA)
      || (status == 0xFB)
      || (status == 0xFC)
      || (status == 0xFE)
    then some 0
    else if (status == 0xC0) || (status == 0xD0) || (status == 0xF7) || (status == 0xF3)
    then some 1
    else if (status == 0x80)
        || (status == 0x90)
        || (status == 0xA0)
        || (status == 0xB0)
        || (status == 0xE0)
        || (status == 0xF2)
    then some 2
    else none

read_data : ℕ → ℕ → MidiEvent → SndBuffer → Option ReadEvent
unfolding try_getc
read_data size zero event buffer = some (size + 0, record event { msg_length = 0 }, buffer)
read_data size (suc zero) event buffer =
    try_getc buffer (record event { msg_length = 1 })
      (λ byte buffer'. some (size + 1, record event { msg_length = 1; msg = byte ∷ [] }, buffer'))
read_data size more event buffer =
    try_getc buffer (record event { msg_length = 2 })
      (λ a buffer'.
        try_getc buffer' (record event { msg_length = 2 })
          (λ b buffer''.
            some (size + 2, record event { msg_length = 2; msg = a ∷ b ∷ [] }, buffer'')))

-- MIDI_MSG_SYSEX, in so many rounds: `msg_length` goes on from the event before.
unfoldable pub read_sysex : ℕ → ℕ → MidiEvent → Bytes → SndBuffer → Option ReadEvent
unfolding try_getc
read_sysex zero size event bytes buffer = none
read_sysex (suc rounds) size event bytes buffer = do
  byte ← sndbuf_peek buffer
  if byte == 0xF7
      then some (size + event.msg_length, record event { msg = bytes }, buffer)
      else if max_msglen == event.msg_length
      then some (0, event, buffer)
      else try_getc buffer event (λ c buffer'.
        read_sysex rounds size (record event { msg_length = event.msg_length + 1 })
          (bytes ++ c ∷ []) buffer')

-- MIDI_MSG_META
unfoldable pub read_meta : ℕ → MidiEvent → SndBuffer → Option ReadEvent
unfolding try_getc midi_read_vlq restore_vlq
read_meta size event buffer = try_getc buffer event (λ kind buffer'. do
  (vlq, buffer'') ← midi_read_vlq buffer'
  elim vlq [
    | none ↦ some (0, event, buffer'')
    | some r ↦ if ltb (max_msglen - 1 - r.0) r.1 then some (0, event, buffer'') else (do
      let event' = record event { msg_length = 1 + r.0 + r.1 }
      (bytes, buffer3, whole) ← sndbuf_read buffer'' r.1
      some (
          if whole
          then (
            size + 1 + event'.msg_length,
            record event' { msg = kind ∷ restore_vlq r.1 r.0 ++ bytes },
            buffer3,
          )
          else (0, event', buffer3)))
  ])

-- The message behind its status.
unfoldable pub read_message : ℕ → ℕ → MidiEvent → SndBuffer → Option ReadEvent
unfolding read_data message_length read_sysex read_meta
read_message status size event buffer =
    let kind = if ltb status 0xF0 then bit_and status 0xF0 else status in
    elim (message_length kind) [
      | some n ↦ read_data size n event buffer
      | none ↦
          if kind == 0xF0
          then read_sysex (max_msglen + 1) size event [] buffer
          else if kind == 0xFF
          then read_meta size event buffer
          else some (0, event, buffer)
    ]

-- The delta of an event, and what `midi_read_vlq` returned. An error leaves what was there.
abbrev pub with_delta : MidiEvent → Option (ℕ × ℕ) → ℕ × MidiEvent
with_delta event none = (0, event)
with_delta event (some r) = (r.0, record event { delta = r.1 })

-- `midi_read_event`
unfoldable pub midi_read_event : SndBuffer → MidiEvent → Option ReadEvent
unfolding read_message try_getc
midi_read_event buffer event = do
  (vlq, buffer') ← midi_read_vlq buffer
  let (size, timed) = with_delta event vlq
  status ← sndbuf_peek buffer'
  if leb 0x80 status
      then try_getc buffer' timed (λ byte buffer''.
        read_message byte (size + 1) (record timed { status = u8 byte }) buffer'')
      else read_message timed.status size timed buffer'
