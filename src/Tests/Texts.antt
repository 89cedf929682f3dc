-- ===== src/Tests/Texts.antt =====
-- src/cli_utf8.c and src/cli_bytebuf.c on concrete texts.
use oi_c.Prelude.{ℕ, ◌≡◌, ◌↔◌, inl, refl, Bool, true, [], ◌∷◌, Bytes, arith}
use oi_c.Status.{val, ok}
use oi_c.Utf8.{sequence_length, validate, next_boundary, previous_boundary, decode}
use oi_c.Utf8.Encode.{emit_utf8}
use oi_c.Utf8.RoundTrip.{decode-emit_utf8}
use oi_c.Utf8.Boundary.{previous_boundary-next_boundary}
use oi_c.Utf8.Text.{IsText, validate_iff}
use oi_c.Bytebuf.{Bytebuf}

abbrev all_granted : ℕ → Bool
all_granted n = true

abbrev sample : Bytes
sample = 97 ∷ 195 ∷ 169 ∷ 226 ∷ 130 ∷ 172 ∷ []

abbrev buffer : Bytebuf
buffer = record { contents = 65 ∷ []; cap = 128 }

validate_iff_example : (validate sample ≡ ok) ↔ IsText sample
validate_iff_example = validate_iff sample

decode-emit_utf8_example : decode (emit_utf8 8364) ≡ val 8364
decode-emit_utf8_example = decode-emit_utf8 8364 (inl (omega arith))

previous_boundary-next_boundary_example : previous_boundary sample 3 ≡ val 1
unfolding next_boundary sequence_length
previous_boundary-next_boundary_example = previous_boundary-next_boundary sample 1 3 refl
