-- ===== src/Tests/Sound.antt =====
-- Concrete runs of player/src/snd.
use lavender.Base.{◌≡◌, refl, some, false, [], ◌∷◌, Bytes, replicate, arith}
use lavender.Snd.Buf.{SndBuffer, sndbuf_getc, sndbuf_read, read_loop, pass_byte}
use lavender.Snd.Midi.{restore_vlq, restore_loop, clear_last, midi_read_vlq}
use lavender.Snd.Midi.Vlq.{Delivers, byte, empty, midi_read_vlq-restore_vlq}

abbrev memory : Bytes
memory = replicate 4096 0

-- A buffer that starts with the number 300 in two bytes.
abbrev numbers : SndBuffer
numbers = record {
  size = 8;
  position = 0;
  buffer_data = 0x82 ∷ 0x2C ∷ 0 ∷ 0 ∷ 0 ∷ 0 ∷ 0 ∷ 0 ∷ [];
  reqpkt = false;
  ackpkt = false;
  nomore = false;
}

delivered : Delivers numbers (restore_vlq 300 2) (record numbers { position = 2 })
unfolding restore_vlq restore_loop clear_last sndbuf_getc sndbuf_read read_loop pass_byte
delivered = byte 0x82 refl (byte 0x2C refl empty)

midi_read_vlq-restore_vlq_example :
    midi_read_vlq numbers ≡ some (some (2, 300), record numbers { position = 2 })
midi_read_vlq-restore_vlq_example =
    midi_read_vlq-restore_vlq 300 1 numbers (record numbers { position = 2 }) (omega arith)
      (omega arith) delivered
