-- ===== src/Gfx.antt =====
-- The part of player/src/gfx that does not draw: the names of colors.
pub mod Color
