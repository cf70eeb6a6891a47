-- ===== src/Zip.antt =====
-- player/src/pal/_zip/zip.c: the archive appended to the program.
pub mod Crc
pub mod Archive
pub mod Data
