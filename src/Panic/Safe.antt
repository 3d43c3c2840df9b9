-- ===== src/Panic/Safe.antt =====
-- `panic` shows its message whatever the graphics were doing.
use umka_os.Base.{◌<◌, [], ◌∷◌, Text}

-- Every character has a glyph.
abbrev pub IsAscii : Text → Type 0
IsAscii [] = Unit
IsAscii (c ∷ text) = (c < 128) × IsAscii text
