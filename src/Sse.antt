-- ===== src/Sse.antt =====
-- src/llm_sse.c: the `data:` payloads of a Server-Sent-Events stream.
-- `line` is line_buf[0 .. line_len). The event callback belongs to the caller: `destroys` tells, from
-- the events that it has been given so far, whether it destroys the parser in that call. `grants`
-- tells whether a `realloc` to n bytes succeeds; the buffer asks for larger sizes only.
pub mod Split
pub mod Bound
use oi_c.Prelude.{
  ℕ, zero, suc, ◌+◌, ◌-◌, ◌*◌, Bool, true, false, ◌&&◌, List, [], ◌∷◌, ◌++◌, ltb, leb, ◌==◌,
  if◌then◌else◌, length, take, drop, get_or, Bytes, equal, codes, Option, none, some,
}
use oi_c.Status.{Status, ok, err_nomem, err_parse, is_ok}

-- OI_SSE_MAX_LINE
abbrev pub max_line : ℕ
max_line = 1048576

pub record Parser : Type 0 where
  pub line : Bytes
  pub line_cap : ℕ
  pub events : List Bytes
  pub destroyed : Bool

unfoldable pub create : Parser
create = record { line = []; line_cap = 256; events = []; destroyed = false }

-- The capacity that `line_append` asks for.
abbrev pub doubled : ℕ → ℕ
doubled cap = if ltb max_line (cap * 2) then max_line else cap * 2

unfoldable pub line_append : (ℕ → Bool) → Parser → ℕ → Status × Parser
line_append grants p c =
    if leb max_line (length p.line)
    then (err_parse, p)
    else if length p.line == p.line_cap
    then (if grants (doubled p.line_cap)
        then (ok, record p { line = p.line ++ (c ∷ []); line_cap = doubled p.line_cap })
        else (err_nomem, p))
    else (ok, record p { line = p.line ++ (c ∷ []) })

-- The payload that `process_line` hands to the callback, if the line has one.
unfoldable pub payload : Bytes → Option Bytes
payload line =
    if leb 5 (length line) && equal (take 5 line) (codes "data:")
    then some (if ltb 5 (length line) && get_or line 5 0 == b' ' then drop 6 line else drop 5 line)
    else none

-- The callback, and what it may do to the parser.
abbrev pub dispatch : (List Bytes → Bool) → Parser → Option Bytes → Parser
dispatch destroys p none = p
dispatch destroys p (some e) = record p {
  events = p.events ++ (e ∷ []);
  destroyed = destroys (p.events ++ (e ∷ []));
}

unfoldable pub process_line : (List Bytes → Bool) → Parser → Parser
process_line destroys p = dispatch destroys p (payload p.line)

-- `if (line_len > 0 && line_buf[line_len - 1] == '\r') line_len--`
unfoldable pub strip_cr : Bytes → Bytes
strip_cr [] = []
strip_cr (x ∷ []) = if x == b'\r' then [] else x ∷ []
strip_cr (x ∷ y ∷ r) = x ∷ strip_cr (y ∷ r)

-- After the callback: a destroyed parser ends the call, any other starts a new line.
abbrev pub next_line : Parser → Parser
next_line p = if p.destroyed then p else record p { line = [] }

module _ (grants : ℕ → Bool) (destroys : List Bytes → Bool) where
  -- One byte of `feed`: the status, and the parser after it.
  unfoldable pub feed_byte : Parser → ℕ → Status × Parser
  feed_byte p c =
      if c == b'\n'
      then (ok, next_line (process_line destroys (record p { line = strip_cr p.line })))
      else line_append grants p c

  unfoldable pub feed : Parser → Bytes → Status × Parser
  feed p [] = (ok, p)
  feed p (c ∷ cs) =
      let r = feed_byte p c in
      let rest = feed r.1 cs in if is_ok r.0 then if r.1.destroyed then (ok, r.1) else rest else r

-- The carriage return of a last line without newline stays.
unfoldable pub finish : (List Bytes → Bool) → Parser → Status × Parser
finish destroys p =
    if length p.line == 0 then (ok, p) else (ok, next_line (process_line destroys p))
