-- ===== src/Utf8/Tables.antt =====
-- The case folding tables of player/src/pal/utf8.c, less the mark 0xFFFF that ends each.
use lavender.Base.{ℕ, List, [], ◌∷◌}

-- `_FOLDING_SINGLE`
abbrev pub folding_single : List (ℕ × ℕ)
folding_single =
    (0x00B5, 0x03BC)
    ∷ (0x0178, 0x00FF)
    ∷ (0x0179, 0x017A)
    ∷ (0x017B, 0x017C)
    ∷ (0x017D, 0x017E)
    ∷ (0x017F, 0x0073)
    ∷ (0x0181, 0x0253)
    ∷ (0x0182, 0x0183)
    ∷ (0x0184, 0x0185)
    ∷ (0x0186, 0x0254)
    ∷ (0x0187, 0x0188)
    ∷ (0x0189, 0x0256)
    ∷ (0x018A, 0x0257)
    ∷ (0x018B, 0x018C)
    ∷ (0x018E, 0x01DD)
    ∷ (0x018F, 0x0259)
    ∷ (0x0190, 0x025B)
    ∷ (0x0191, 0x0192)
    ∷ (0x0193, 0x0260)
    ∷ (0x0194, 0x0263)
    ∷ (0x0196, 0x0269)
    ∷ (0x0197, 0x0268)
    ∷ (0x0198, 0x0199)
    ∷ (0x019C, 0x026F)
    ∷ (0x019D, 0x0272)
    ∷ (0x019F, 0x0275)
    ∷ (0x01A0, 0x01A1)
    ∷ (0x01A2, 0x01A3)
    ∷ (0x01A4, 0x01A5)
    ∷ (0x01A6, 0x0280)
    ∷ (0x01A7, 0x01A8)
    ∷ (0x01A9, 0x0283)
    ∷ (0x01AC, 0x01AD)
    ∷ (0x01AE, 0x0288)
    ∷ (0x01AF, 0x01B0)
    ∷ (0x01B1, 0x028A)
    ∷ (0x01B2, 0x028B)
    ∷ (0x01B3, 0x01B4)
    ∷ (0x01B5, 0x01B6)
    ∷ (0x01B7, 0x0292)
    ∷ (0x01B8, 0x01B9)
    ∷ (0x01BC, 0x01BD)
    ∷ (0x01C4, 0x01C6)
    ∷ (0x01C5, 0x01C6)
    ∷ (0x01C7, 0x01C9)
    ∷ (0x01C8, 0x01C9)
    ∷ (0x01CA, 0x01CC)
    ∷ (0x01F1, 0x01F3)
    ∷ (0x01F2, 0x01F3)
    ∷ (0x01F4, 0x01F5)
    ∷ (0x01F6, 0x0195)
    ∷ (0x01F7, 0x01BF)
    ∷ (0x0220, 0x019E)
    ∷ (0x023A, 0x2C65)
    ∷ (0x023B, 0x023C)
    ∷ (0x023D, 0x019A)
    ∷ (0x023E, 0x2C66)
    ∷ (0x0241, 0x0242)
    ∷ (0x0243, 0x0180)
    ∷ (0x0244, 0x0289)
    ∷ (0x0245, 0x028C)
    ∷ []

-- `_FOLDING_DOUBLE`
abbrev pub folding_double : List (ℕ × ℕ × ℕ)
folding_double =
    (0x00DF, 0x0073, 0x0073)
    ∷ (0x0130, 0x0069, 0x0307)
    ∷ (0x0149, 0x02BC, 0x006E)
    ∷ (0x01F0, 0x006A, 0x030C)
    ∷ []
