-- ===== src/Lib.antt =====
-- lavender: the slideshow player under player/src, which runs a script from an archive that is
-- appended to the program, and whose scripts may be encrypted.
--
-- The player opens the archive, finds a script in it and loads its lines one by one. A script may
-- call another one, and the called one may be encrypted: then a key is looked up, or assembled
-- from what the script, the diskette and the user give, and the script is decrypted in place when
-- its checksum shows that the key is right.
--
-- Which file models which part:
--
--   Zip.Crc       player/src/pal/_zip/zip.c: the checksum, over a buffer (`zip_calculate_crc`) and
--                 over a callback (`zip_calculate_crc_indirect`).
--   Zip.Archive   the search for a file in the central directory of the same file (`zip_enum_files`,
--                 `_match_file_name`, `zip_search`), and Zip.Data its data (`_get_data`, `zip_load_data`).
--   Num           player/src/numstr.c: numbers in texts.
--   Cipher        player/src/enc/cipher: the streams of xor.c and des.c. `Cipher.Des` is the block
--                 cipher, `Cipher.Des.Stream` the CBC streams, with the allocation, the cache of
--                 `des_at`, `des_decrypt` and `des_verify`, and `Cipher.InPlace` the decryptions
--                 where the output is the data's own buffer, as enc.c calls them.
--   Key           player/src/enc/keyfmt: `Key.Le` is le.c and `Key.Pkey` is pkey25.c.
--   Utf8          player/src/pal/utf8.c: decoding, encoding, lengths and the comparison without case.
--   Sld           player/src/sld: `Sld.Entry` loads a line of a script (`sld_load_entry` of loader.c, with
--                 text.c, shape.c, bitmap.c, call.c and jump.c) over `Sld.Numbers` and `Sld.Loader`,
--                 `Sld.Areas` is the table of active areas (actarea.c), and `Sld.Runner` runs scripts:
--                 `sld_handle` and `_goto_label` (runner.c), what a line does (text.c, shape.c, play.c,
--                 query.c), script calls (call.c), the stack of contexts (context.c) and the loop of `main` (main.c).
--   Gfx           player/src/gfx/color.c: the names of colors.
--   Snd           player/src/snd: `Snd.Buf` is the buffer of two packets (buf.c), `Snd.Midi` reads the events
--                 from it (midi.c), and `Snd.Seq` fills and feeds it from a track (`sndseq_feed` of seq.c).
--   Enc           player/src/enc/enc.c: the streams by their cipher. `Enc.Keys` saves and loads keys,
--                 `Enc.Content` is `_decrypt_content` and `enc_access_content`, and `Enc.Session` is
--                 `enc_handle`, a state machine. `Enc.Caller` is provider/caller.c, the key that
--                 a script gives.
--   Base, Bits    shared types, tests and lists; laws of the bit operations at every width.
--   Tests         runs on small inputs, and each result at a concrete input.
--
-- How the code is modelled. An integer of w bits is a natural number, with its wrap-around written
-- out as a remainder. A buffer that a pointer points into is the list of its bytes from there on, and
-- a read behind its end is a fault: the function gives `none`, as for a store behind the array
-- `content` of an entry. A function that changes an object takes it and returns the changed one. A
-- loop over a buffer is a recursion on the bytes or on the rounds left; where a `while` loop takes
-- fuel, the fuel is the number of bytes of the buffer, and every round
-- passes one byte at least. The loops of `Zip.Archive` take a number of rounds, and say when it is used
-- up; a directory needs one round for each file and one for its end.
--
-- A script is the list of the bytes that can be read from its start on, with its size: the loops over a line end
-- read the byte behind the last line. The loop of `_goto_label` takes one round more than the script has bytes, and
-- every line passes one at least; the loop of `main` takes the rounds that it is given, and says when they
-- are used up, as the search of `gfx_get_color` does.
--
-- Parameters of the model are the store of keys of a platform, the table of providers, `malloc`, the dialogs of
-- ext/sharizard and `encui_exit`, and for the runner the platform: files, keys, the mouse, the counter, drawing and
-- sound (`Player`). What the code relies on of them is in `IsKeyStore`, `IsPlatform`, `FillsBuffer`, `HasCaller` and
-- `HasCallerKeys`. The file of an open archive, or of a song, is the list of its bytes, which can be read.
--
-- Not modelled: drawing (with the reading and the parts of bitmaps), the drivers of sound, windows, network and file access,
-- which are calls of the system and of libraries; the chunks of a song and the timing of its events; the dialogs and the providers that use them; the opening of an archive; the
-- launcher under ard.
pub mod Base
pub mod Bits
pub mod Zip
pub mod Cipher
pub mod Utf8
pub mod Key
pub mod Sld
pub mod Num
pub mod Enc
pub mod Gfx
pub mod Snd
pub mod Tests
