-- ===== src/Utf8Stream.antt =====
-- src/cli_utf8_stream.c: the filter that makes any byte stream into well-formed UTF-8.
pub mod Laws
pub mod Text
pub mod Identity
use oi_c.Prelude.{
  ℕ, ◌+◌, Bool, true, false, not, List, [], ◌∷◌, ◌++◌, ltb, ◌==◌, if◌then◌else◌, length, Bytes,
  Option,
}
use oi_c.Status.{Status, ok, Result, val, err}
use oi_c.Utf8.{lead_length, sequence_length, is_continuation}
use oi_c.Bytebuf.{Bytebuf, append}
use oi_c.Pump
use oi_c.Pump.{One, Machine, Fed}

-- `pending` is pending[0 .. pending_len).
pub record Utf8Stream : Type 0 where
  pub pending : Bytes
  pub expected_len : ℕ

-- U+FFFD
abbrev pub replacement : Bytes
replacement = 0xef ∷ 0xbf ∷ 0xbd ∷ []

unfoldable pub init : Utf8Stream
init = record { pending = []; expected_len = 0 }

abbrev pub cleared : Utf8Stream → Utf8Stream
cleared s = record s { pending = [] }

-- What `flush_pending` appends.
unfoldable pub flushed : Bytes → Bytes
flushed pending = elim (sequence_length pending) [
  | err _ ↦ replacement
  | val n ↦ if n == length pending then pending else replacement
]

-- `feed_one` with no byte pending.
unfoldable pub feed_lead : Utf8Stream → ℕ → One Utf8Stream
feed_lead s byte = elim (lead_length byte) [
  | err _ ↦ record { next = s; emits = replacement; again = false }
  | val n ↦ if n == 1 then record { next = s; emits = byte ∷ []; again = false } else record {
    next = record { pending = byte ∷ []; expected_len = n };
    emits = [];
    again = false;
  }
]

-- `feed_one` with bytes pending.
unfoldable pub feed_tail : Utf8Stream → ℕ → One Utf8Stream
feed_tail s byte =
    if not (is_continuation byte)
    then record { next = cleared s; emits = replacement; again = true }
    else let full = s.pending ++ (byte ∷ []) in
      if ltb (length full) s.expected_len
      then record { next = record s { pending = full }; emits = []; again = false }
      else record { next = cleared s; emits = flushed full; again = false }

-- `pending_len == 0`
abbrev pub none_pending : Bytes → Bool
none_pending [] = true
none_pending (x ∷ xs) = false

unfoldable pub feed_one : Utf8Stream → ℕ → One Utf8Stream
feed_one s byte = if none_pending s.pending then feed_lead s byte else feed_tail s byte

abbrev pub utf8_machine : Machine Utf8Stream
utf8_machine = record {
  idle = λ s. none_pending s.pending;
  plain = λ c. ltb c 0x80;
  one = feed_one;
}

unfoldable pub feed : (ℕ → Bool) → Utf8Stream → Bytes → Bytebuf → Option (Fed Utf8Stream)
feed = Pump.feed utf8_machine

unfoldable pub finish : (ℕ → Bool) → Utf8Stream → Bytebuf → Fed Utf8Stream
finish grants s out =
    if none_pending s.pending
    then record { status = ok; state = s; out = out }
    else let w = append grants out replacement in
      record { status = w.0; state = cleared s; out = w.1 }
