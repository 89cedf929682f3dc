-- ===== src/Http.antt =====
-- src/llm_http.c: the incremental HTTP/1.1 response parser.
-- `line` is line_buf[0 .. line_len). What goes to the callbacks is kept: the status codes given to
-- `on_headers_done`, and the bytes given to `on_body` one piece after another. `destroys` tells from
-- these whether the callback destroys the parser in that call; `grants` is the allocator.
mod Digits
pub mod Feed
pub mod Length
pub mod Number
pub mod Body
pub mod Bound
unfoldable pub use Digits.{max_value, is_digit_c, dec_digit, hex_digit, accumulate, value}
use oi_c.Prelude.{
  ℕ, zero, suc, ◌+◌, ◌-◌, ◌*◌, min, Bool, true, false, not, ◌&&◌, ◌||◌, List, [], ◌∷◌, ◌++◌, ltb,
  leb, ◌==◌, within, if◌then◌else◌, length, take, drop, get_or, Bytes, equal, codes, Option, none,
  some,
}
use oi_c.Sse.{strip_cr}
use oi_c.Status.{Status, ok, err_nomem, err_parse, is_ok}

pub data State : Type 0 where
  status_line header_line chunk_size_line chunk_data chunk_data_crlf : State
  final_crlf content_body done error : State

-- OI_HTTP_MAX_LINE
abbrev pub max_line : ℕ
max_line = 8192

pub record Parser : Type 0 where
  pub state : State
  pub line : Bytes
  pub line_cap : ℕ
  pub status_code : ℕ
  pub is_chunked : Bool
  -- -1 is `none`.
  pub content_length : Option ℕ
  pub remaining : ℕ
  pub heads : List ℕ
  pub received : Bytes
  pub destroyed : Bool

unfoldable pub create : Parser
create = record {
  state = status_line;
  line = [];
  line_cap = 256;
  status_code = 0;
  is_chunked = false;
  content_length = none;
  remaining = 0;
  heads = [];
  received = [];
  destroyed = false;
}

-- `p->state = ST_ERROR; return e`
abbrev pub fail : Parser → Status → Status × Parser
fail p e = (e, record p { state = error })

-- The capacity that `line_append` asks for.
abbrev pub doubled : ℕ → ℕ
doubled cap = if ltb max_line (cap * 2) then max_line else cap * 2

unfoldable pub line_append : (ℕ → Bool) → Parser → ℕ → Status × Parser
line_append grants p c =
    if leb max_line (length p.line)
    then fail p err_parse
    else if length p.line == p.line_cap
    then (if grants (doubled p.line_cap)
        then (ok, record p { line = p.line ++ (c ∷ []); line_cap = doubled p.line_cap })
        else fail p err_nomem)
    else (ok, record p { line = p.line ++ (c ∷ []) })

unfoldable pub handle_status_line : Parser → Status × Parser
handle_status_line p =
    let l = p.line in
    let d1 = get_or l 9 0 in
    let d2 = get_or l 10 0 in
    let d3 = get_or l 11 0 in
    if ltb (length l) 12
      || not (equal (take 9 l) (codes "HTTP/1.1 ")) && not (equal (take 9 l) (codes "HTTP/1.0 "))
    then fail p err_parse
    else if not (is_digit_c d1) || not (is_digit_c d2) || not (is_digit_c d3)
    then fail p err_parse
    else if ltb 12 (length l) && not (get_or l 12 0 == b' ')
    then fail p err_parse
    else (
      ok,
      record p {
        status_code = (d1 - b'0') * 100 + (d2 - b'0') * 10 + (d3 - b'0');
        state = header_line;
      },
    )

abbrev pub has_value : Option ℕ → Bool
has_value none = false
has_value (some n) = true

-- The state that `finish_headers` sets where it does not fail.
abbrev pub after_headers : Bool → Option ℕ → Parser → Parser
after_headers true o p = record p { state = chunk_size_line }
after_headers false none p = record p { state = done }
after_headers false (some n) p =
    if n == 0 then record p { state = done } else record p { remaining = n; state = content_body }

-- The callback comes last.
abbrev pub head_callback : (List ℕ → Bytes → Bool) → Parser → Parser
head_callback destroys p = record p {
  heads = p.heads ++ (p.status_code ∷ []);
  destroyed = destroys (p.heads ++ (p.status_code ∷ [])) p.received;
}

unfoldable pub finish_headers : (List ℕ → Bytes → Bool) → Parser → Status × Parser
finish_headers destroys p =
    if p.is_chunked && has_value p.content_length
    then fail p err_parse
    else (ok, head_callback destroys (after_headers p.is_chunked p.content_length p))

-- `strncasecmp` in the C locale.
abbrev pub lower : ℕ → ℕ
lower c = if within b'A' b'Z' c then c + 32 else c

unfoldable pub equal_nocase : Bytes → Bytes → Bool
equal_nocase [] [] = true
equal_nocase (x ∷ xs) (y ∷ ys) = lower x == lower y && equal_nocase xs ys
equal_nocase [] (y ∷ ys) = false
equal_nocase (x ∷ xs) [] = false

-- The bytes before the first `stop`, and what is left from there on.
unfoldable pub before : ℕ → Bytes → Bytes
before stop [] = []
before stop (c ∷ cs) = if c == stop then [] else c ∷ before stop cs

unfoldable pub skip_spaces : Bytes → Bytes
skip_spaces [] = []
skip_spaces (c ∷ cs) = if c == b' ' then skip_spaces cs else c ∷ cs

-- `p->content_length >= 0 && p->content_length != v`
abbrev pub conflicts : Option ℕ → ℕ → Bool
conflicts none v = false
conflicts (some n) v = not (n == v)

-- `Content-Length`, on the number read.
abbrev pub set_length : Parser → Option ℕ → Status × Parser
set_length p none = fail p err_parse
set_length p (some v) =
    if conflicts p.content_length v
    then fail p err_parse
    else (ok, record p { content_length = some v; state = header_line })

-- A header, as its name and its value.
unfoldable pub handle_header : Parser → Bytes → Bytes → Status × Parser
handle_header p name text =
    if equal_nocase name (codes "Transfer-Encoding")
    then (if equal_nocase text (codes "chunked")
        then (ok, record p { is_chunked = true; state = header_line })
        else fail p err_parse)
    else if equal_nocase name (codes "Content-Length")
    then (if length text == 0
        then fail p err_parse
        else set_length p (accumulate 10 dec_digit 0 text))
    else (ok, record p { state = header_line })

unfoldable pub handle_header_line : (List ℕ → Bytes → Bool) → Parser → Status × Parser
handle_header_line destroys p =
    let name = before b':' p.line in
    if length p.line == 0
    then finish_headers destroys p
    else if length name == 0 || leb (length p.line) (length name)
    then fail p err_parse
    else handle_header p name (skip_spaces (drop (length name + 1) p.line))

abbrev pub set_size : Parser → Option ℕ → Status × Parser
set_size p none = fail p err_parse
set_size p (some size) =
    if size == 0
    then (ok, record p { state = final_crlf })
    else (ok, record p { remaining = size; state = chunk_data })

-- A digit that is refused comes before the test for no digits at all; both are OI_ERR_PARSE.
unfoldable pub handle_chunk_size_line : Parser → Status × Parser
handle_chunk_size_line p =
    let digits = before b';' p.line in
    if length digits == 0 then fail p err_parse else set_size p (accumulate 16 hex_digit 0 digits)

-- `handle_chunk_data_crlf_line` and `handle_final_crlf_line`: the line has to be empty.
unfoldable pub handle_empty_line : State → Parser → Status × Parser
handle_empty_line next p =
    if length p.line == 0 then (ok, record p { state = next }) else fail p err_parse

unfoldable pub is_line_state : State → Bool
is_line_state status_line = true
is_line_state header_line = true
is_line_state chunk_size_line = true
is_line_state chunk_data_crlf = true
is_line_state final_crlf = true
is_line_state _ = false

module _ (destroys : List ℕ → Bytes → Bool) where
  unfoldable pub handle_line : State → Parser → Status × Parser
  handle_line status_line p = handle_status_line p
  handle_line header_line p = handle_header_line destroys p
  handle_line chunk_size_line p = handle_chunk_size_line p
  handle_line chunk_data_crlf p = handle_empty_line chunk_size_line p
  handle_line final_crlf p = handle_empty_line done p
  handle_line _ p = fail p err_parse

  -- A parser that the callback destroyed is not touched again, and the call says OI_OK.
  unfoldable pub on_line_complete : Parser → Status × Parser
  on_line_complete p =
      let r = handle_line p.state p in
      if r.1.destroyed then (ok, r.1) else (r.0, record r.1 { line = [] })

-- A round of `feed`: the status, the parser, and the input that is left.
pub record Round : Type 0 where
  pub status : Status
  pub parser : Parser
  pub rest : Bytes

-- The state behind a chunk or a body that is read to its end.
abbrev pub behind : State → State
behind chunk_data = chunk_data_crlf
behind _ = done

-- What a round does, in a parser that failed, in one that is done, and in any other.
abbrev pub resume {ℓ} : {R : Type ℓ} → State → R → R → R → R
resume error failed over on = failed
resume done failed over on = over
resume _ failed over on = on

module _ (grants : ℕ → Bool) (destroys : List ℕ → Bytes → Bool) where
  -- One byte of a line.
  unfoldable pub line_round : Parser → ℕ → Bytes → Round
  line_round p c cs =
      let r =
        if c == b'\n'
        then on_line_complete destroys (record p { line = strip_cr p.line })
        else line_append grants p c in
      record { status = r.0; parser = r.1; rest = cs }

  -- A run of body bytes, `on_body` first.
  unfoldable pub body_round : Parser → Bytes → Round
  body_round p xs =
      let n = min p.remaining (length xs) in
      let got = p.received ++ take n xs in
      if destroys p.heads got
      then record { status = ok; parser = record p { received = got; destroyed = true }; rest = xs }
      else record {
        status = ok;
        parser = record p {
          received = got;
          remaining = p.remaining - n;
          state = if p.remaining - n == 0 then behind p.state else p.state;
        };
        rest = drop n xs;
      }

  unfoldable pub round : Parser → ℕ → Bytes → Round
  round p x xs = if is_line_state p.state then line_round p x xs else body_round p (x ∷ xs)

  -- `none`: the fuel ran out.
  unfoldable pub feed_loop : ℕ → Parser → Bytes → Option (Status × Parser)
  feed_loop zero p [] = some (ok, p)
  feed_loop (suc f) p [] = some (ok, p)
  feed_loop zero p (x ∷ xs) = none
  feed_loop (suc f) p (x ∷ xs) =
      let r = round p x xs in
      let rest = feed_loop f r.parser r.rest in
      let on =
        if r.parser.destroyed
        then some (ok, r.parser)
        else if is_ok r.status
        then rest
        else some (r.status, r.parser) in
      resume p.state (some (err_parse, p)) (some (ok, p)) on

  -- A byte takes three rounds at most.
  unfoldable pub feed : Parser → Bytes → Option (Status × Parser)
  feed p xs = feed_loop (3 * length xs + 3) p xs
