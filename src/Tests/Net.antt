-- ===== src/Tests/Net.antt =====
-- src/llm_sse.c and src/llm_http.c on concrete bytes.
use oi_c.Prelude.{codes, ℕ, ◌≡◌, refl, Bool, true, false, List, [], ◌∷◌, Bytes, some, arith}
use oi_c.Status.{Status, ok}
use oi_c.Sse
use oi_c.Sse.Split.{keeps_parser, Dispatched, feed-split}
use oi_c.Sse.Bound.{IsValid, ShortLines, feed-IsValid, feed-ok}
use oi_c.Http
use oi_c.Http.{accumulate, value, dec_digit, hex_digit}
use oi_c.Http.Body.{in_body, body_read, feed-in_body}
use oi_c.Http.Length.{Settled, spaces, handle_header_line-Settled}
use oi_c.Http.{handle_header_line}
use oi_c.Http.Bound
use oi_c.Http.Bound.{feed_parser-IsValid}
use oi_c.Http.Feed.{feed_ends}

abbrev all_granted : ℕ → Bool
all_granted n = true

abbrev parser : Sse.Parser
parser = record { line = []; line_cap = 256; events = []; destroyed = false }

-- "data: hi", CR, LF
abbrev event : Bytes
event = 100 ∷ 97 ∷ 116 ∷ 97 ∷ 58 ∷ 32 ∷ 104 ∷ 105 ∷ 13 ∷ 10 ∷ []

event-ShortLines : ShortLines 0 event
event-ShortLines = ground arith

feed-split_example : Dispatched parser event (Sse.feed all_granted keeps_parser parser event)
feed-split_example =
    feed-split all_granted event parser tt refl
      (feed-ok all_granted (λ n. refl) event parser refl event-ShortLines)

feed-IsValid_example : IsValid (Sse.feed all_granted keeps_parser parser event).1
feed-IsValid_example =
    feed-IsValid all_granted keeps_parser event parser
      (record { fits = omega arith; bounded = omega arith; alive = omega arith })

abbrev response : Http.Parser
response = record {
  state = Http.State.content_body;
  line = [];
  line_cap = 256;
  status_code = 200;
  is_chunked = false;
  content_length = some 3;
  remaining = 3;
  heads = 200 ∷ [];
  received = [];
  destroyed = false;
}

abbrev keeps : List ℕ → Bytes → Bool
keeps heads received = false

feed-in_body_example :
    Http.feed all_granted keeps (in_body 3 response) (65 ∷ 66 ∷ 67 ∷ 68 ∷ [])
    ≡ some (ok, body_read 3 (65 ∷ 66 ∷ 67 ∷ 68 ∷ []) response)
feed-in_body_example =
    feed-in_body all_granted keeps (λ h r. refl) 3 response (65 ∷ 66 ∷ 67 ∷ 68 ∷ []) (omega arith)

feed_ends_example :
    (r : Status × Http.Parser) × (Http.feed all_granted keeps response (65 ∷ 66 ∷ []) ≡ some r)
feed_ends_example = feed_ends all_granted keeps response (65 ∷ 66 ∷ [])

abbrev header : Bytes
header = codes "Content-Length: 42"

handle_header_line-Settled_example :
    Settled
      (record response { line = header })
      (codes "42")
      (handle_header_line keeps (record response { line = header }))
handle_header_line-Settled_example =
    handle_header_line-Settled keeps (record response { line = header }) 1 (codes "42")
      (unfold spaces in refl) refl

feed_parser-IsValid_example : Bound.IsValid (body_read 3 (65 ∷ 66 ∷ []) response)
feed_parser-IsValid_example =
    feed_parser-IsValid all_granted keeps (in_body 3 response) (65 ∷ 66 ∷ [])
      (ok, body_read 3 (65 ∷ 66 ∷ []) response)
      (record { fits = omega arith; bounded = omega arith; alive = omega arith })
      (feed-in_body all_granted keeps (λ h r. refl) 3 response (65 ∷ 66 ∷ []) (omega arith))
