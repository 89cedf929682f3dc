-- ===== src/Utf8/Encode.antt =====
-- src/json_parse.c, `emit_utf8`: the encoder of code points that the JSON parser uses for escapes.
-- The bytes are returned; the parser appends them to its string buffer.
use oi_c.Prelude.{ℕ, ◌+◌, ◌/◌, ◌%◌, ◌<◌, List, [], ◌∷◌, ◌++◌, leb, if◌then◌else◌, Bytes, ◌⊎◌}

-- A Unicode scalar value: a code point that is no surrogate.
abbrev pub IsScalar : ℕ → Type 0
IsScalar cp = (cp < 0xd800) ⊎ ((0xdfff < cp) × (cp < 0x110000))

unfoldable pub emit_utf8 : ℕ → Bytes
emit_utf8 cp =
    if leb cp 0x7f
    then cp ∷ []
    else if leb cp 0x7ff
    then (0xc0 + cp / 64) ∷ (0x80 + cp % 64) ∷ []
    else if leb cp 0xffff
    then (0xe0 + cp / 4096) ∷ (0x80 + cp / 64 % 64) ∷ (0x80 + cp % 64) ∷ []
    else (0xf0 + cp / 262144)
      ∷ (0x80 + cp / 4096 % 64)
      ∷ (0x80 + cp / 64 % 64)
      ∷ (0x80 + cp % 64)
      ∷ []

-- The text of a sequence of code points.
unfoldable pub emit_all : List ℕ → Bytes
emit_all [] = []
emit_all (cp ∷ cps) = emit_utf8 cp ++ emit_all cps
