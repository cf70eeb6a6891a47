-- ===== src/Sld.antt =====
-- The slideshow scripts of player/src/sld.
pub mod Areas
pub mod Numbers
pub mod Loader
pub mod Entry
pub mod Runner
