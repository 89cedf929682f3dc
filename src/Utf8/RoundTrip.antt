-- ===== src/Utf8/RoundTrip.antt =====
-- The checks and the decoder of src/cli_utf8.c against the encoder of src/json_parse.c.
use oi_c.Prelude.{ℕ, ◌≡◌, ◌++◌, arith, length, Bytes}
use oi_c.Status.{val}
use oi_c.Utf8.{sequence_length, decode}
use oi_c.Utf8.Encode.{IsScalar, emit_utf8}

-- The decoder gives back every Unicode scalar value from its encoding.
pub decode-emit_utf8 : (cp : ℕ) → IsScalar cp → decode (emit_utf8 cp) ≡ val cp
unfolding decode emit_utf8
decode-emit_utf8 cp h = ground arith

pub sequence_length-emit_utf8 :
    (cp : ℕ) (rest : Bytes)
    → IsScalar cp
    → sequence_length (emit_utf8 cp ++ rest) ≡ val (length (emit_utf8 cp))
unfolding sequence_length emit_utf8
sequence_length-emit_utf8 cp rest h = ground arith
