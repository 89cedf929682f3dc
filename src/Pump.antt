-- ===== src/Pump.antt =====
-- The loop of `oi_cli_utf8_stream_feed` (src/cli_utf8_stream.c) and of `oi_cli_sanitize_feed`
-- (src/cli_render_sanitize.c), which are the same program over two machines: a run of plain bytes is
-- appended at once while the machine is idle, any other byte goes through `feed_one`, and a byte
-- that `feed_one` did not consume is given to it again.
pub mod Laws
pub mod Refine
use oi_c.Prelude.{
  ℕ, zero, suc, ◌+◌, ◌*◌, Bool, true, false, ◌&&◌, [], ◌∷◌, ◌++◌, if◌then◌else◌, length, drop,
  Bytes, Option, none, some,
}
use oi_c.Status.{Status, ok, is_ok}
use oi_c.Bytebuf.{Bytebuf, append}

-- One call of `feed_one`. It changes its state, then appends at most once, and its state does not
-- depend on how the append ends; `again` is `*reprocess`.
pub record One (S : Type 0) : Type 0 where
  pub next : S
  pub emits : Bytes
  pub again : Bool

pub record Machine (S : Type 0) : Type 0 where
  pub idle : S → Bool
  pub plain : ℕ → Bool
  pub one : S → ℕ → One S

-- What a call of the whole loop leaves.
pub record Fed (S : Type 0) : Type 0 where
  pub status : Status
  pub state : S
  pub out : Bytebuf

-- What one round of the loop does: the new state, the bytes to append, the input that is left.
pub record Round (S : Type 0) : Type 0 where
  pub state : S
  pub emits : Bytes
  pub rest : Bytes

-- `while (i < in_len && is_plain(in[i])) i++`
unfoldable pub plain_run : (ℕ → Bool) → Bytes → Bytes
plain_run plain [] = []
plain_run plain (x ∷ xs) = if plain x then x ∷ plain_run plain xs else []

-- No call is made where a branch appends nothing.
unfoldable pub put : (ℕ → Bool) → Bytebuf → Bytes → Status × Bytebuf
put grants out [] = (ok, out)
put grants out (x ∷ xs) = append grants out (x ∷ xs)

module _ {S : Type 0} (m : Machine S) where
  unfoldable pub round : S → ℕ → Bytes → Round S
  round s x xs =
      if m.idle s && m.plain x
      then record {
        state = s;
        emits = plain_run m.plain (x ∷ xs);
        rest = drop (length (plain_run m.plain (x ∷ xs))) (x ∷ xs);
      }
      else record {
        state = (m.one s x).next;
        emits = (m.one s x).emits;
        rest = if (m.one s x).again then x ∷ xs else xs;
      }

  -- `none`: the fuel ran out before the input did.
  unfoldable pub feed_loop : (ℕ → Bool) → ℕ → S → Bytes → Bytebuf → Option (Fed S)
  feed_loop grants zero s [] out = some (record { status = ok; state = s; out = out })
  feed_loop grants (suc f) s [] out = some (record { status = ok; state = s; out = out })
  feed_loop grants zero s (x ∷ xs) out = none
  feed_loop grants (suc f) s (x ∷ xs) out =
      let r = round s x xs in
      let w = put grants out r.emits in
      let rest = feed_loop grants f r.state r.rest w.1 in
      if is_ok w.0 then rest else some (record { status = w.0; state = r.state; out = w.1 })

  -- A byte takes two rounds at most.
  unfoldable pub feed : (ℕ → Bool) → S → Bytes → Bytebuf → Option (Fed S)
  feed grants s xs out = feed_loop grants (2 * length xs + 1) s xs out

  -- The specification: byte by byte, with no fast path and no buffer.
  unfoldable pub byte : S → ℕ → S × Bytes
  byte s c =
      if (m.one s c).again
      then ((m.one (m.one s c).next c).next, (m.one s c).emits ++ (m.one (m.one s c).next c).emits)
      else ((m.one s c).next, (m.one s c).emits)

  unfoldable pub transduce : S → Bytes → S × Bytes
  transduce s [] = (s, [])
  transduce s (c ∷ cs) = let b = byte s c in let r = transduce b.0 cs in (r.0, b.1 ++ r.1)
