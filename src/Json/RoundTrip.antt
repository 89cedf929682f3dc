-- ===== src/Json/RoundTrip.antt =====
-- The serializer of src/json_write.c against the parser of src/json_parse.c.
use oi_c.Json.Attach.{Plenty}
use oi_c.Json.State.{Memory, heap}
use oi_c.Prelude.{ℕ, ◌<◌, ◌≡◌, subst, sym, Bool, true, length, Bytes, some}
use oi_c.Json.Calls.{Room}
use oi_c.Json.Feed.{feed_bytes, feed-feed_bytes}
use oi_c.Json.Input.{Fits, finish-render}
use oi_c.Json.Output.{AllNumbers, write_value-render}
use oi_c.Json.Parser as P
use oi_c.Json.State as S
use oi_c.Json.Value.{Value}
use oi_c.Json.Walk.{write_value, render}
use oi_c.Json.Writer as W
use oi_c.Status.{Status, ok}

module _ {N : Type 0} (format : N → Bytes) (finite : N → Bool) (strtod : Bytes → N × ℕ)
    (grants : Memory → ℕ → Bool) (plenty : Plenty grants)
    (short : (x : N) → length (format x) < 64) where
  -- Feeding the whole text and finishing leaves `v` as the root, with OI_OK from each call.
  abbrev pub Parses : Bytes → Value N → Type 0
  Parses text v =
      (r : Status × S.Parser N) × (P.feed strtod grants S.create text ≡ some r)
      × (r.0 ≡ ok)
      × ((P.finish strtod grants r.1).0 ≡ ok)
      × (P.parser_root strtod grants (P.finish strtod grants r.1).1 ≡ some v)

  -- Where malloc and realloc give memory, the arena gives every request of up to 65536 bytes, and
  -- "%.17g" prints fewer than 64 bytes: a value of finite numbers whose text is short enough,
  -- with at most 1000 open containers, arrays of fewer than 4096 elements, strings and keys of
  -- fewer than 65536 bytes, and numbers whose text is a number of the JSON grammar that `strtod`
  -- reads back, is written with OI_OK; the text that comes out, fed to a new parser and finished,
  -- gives the value back, with OI_OK from each call.
  pub write_value-feed :
      (v : Value N)
      → AllNumbers (λ x. finite x ≡ true) v
      → Fits format strtod 0 v
      → Room (render format v)
      → let w = write_value format finite (grants heap) v W.create in
        (w.0 ≡ ok) × Parses w.1.contents v
  write_value-feed v a f m =
      let w = write_value-render format finite (grants heap) plenty.from_heap short v a m in
      let r = finish-render format strtod grants plenty v f in
      (
        w.0,
        subst (λ x. Parses x v) (sym w.1)
            (
              feed_bytes strtod grants S.create (render format v),
              feed-feed_bytes strtod grants S.create (render format v),
              r.0,
              r.1,
              r.2,
            ),
      )
