-- ===== src/Json/Parser.antt =====
-- src/json_parse.c: the step for one byte, and the calls that feed bytes and finish.
use oi_c.Prelude.{
  ℕ, zero, suc, ◌+◌, ◌*◌, Bool, true, false, not, ◌&&◌, ◌||◌, List, [], ◌∷◌, ◌==◌, if◌then◌else◌,
  length, get_or, Bytes, codes, Option, none, some,
}
use oi_c.Json.Numbers.{is_digit, finalize_number, handle_number_byte}
use oi_c.Json.State.{
  Memory, arena, State, between, in_string, in_escape, in_unicode, in_number, in_literal, done,
  error, Expect, elem_or_close, elem, comma_or_close, colon, member_value, Container, array_of,
  object_of, Frame, Parser, fail, push_frame, pop_container,
}
use oi_c.Json.Strings.{
  attach_new, handle_string_byte, handle_string_escape_byte, handle_string_unicode_byte,
}
use oi_c.Json.Value.{Value, nil, end, null, boolean, new_scalar}
use oi_c.Status.{Status, ok, err_parse, is_ok}

unfoldable pub is_ws : ℕ → Bool
is_ws c = c == 32 || c == 9 || c == 10 || c == 13

abbrev pub is_object : {N : Type 0} → Container N → Bool
is_object (array_of items) = false
is_object (object_of members) = true

abbrev pub expects_key : Expect → Bool
expects_key elem_or_close = true
expects_key elem = true
expects_key _ = false

-- The byte stands where an object's key has to.
unfoldable pub wants_key : {N : Type 0} → List (Frame N) → Bool
wants_key [] = false
wants_key (f ∷ fs) = is_object f.container && expects_key f.expect

abbrev pub begin_literal : {N : Type 0} → Parser N → Bytes → Status × Parser N
begin_literal p word = (ok, record p { state = in_literal; literal = word; literal_index = 1 })

abbrev pub close_char : {N : Type 0} → Container N → ℕ
close_char (array_of items) = b']'
close_char (object_of members) = b'}'

module _ {N : Type 0} (strtod : Bytes → N × ℕ) (grants : Memory → ℕ → Bool) where
  -- The `switch` of `dispatch_value_start`.
  unfoldable pub start_value : Parser N → ℕ → Status × Parser N
  start_value p c =
      if c == b'{'
      then push_frame grants p (object_of end)
      else if c == b'['
      then push_frame grants p (array_of nil)
      else if c == b'"'
      then (ok, record p { state = in_string; text = []; pending_high_surrogate = false })
      else if c == b't'
      then begin_literal p (codes "true")
      else if c == b'f'
      then begin_literal p (codes "false")
      else if c == b'n'
      then begin_literal p (codes "null")
      else if c == b'-' || is_digit c
      then (ok, record p { state = in_number; digits = c ∷ [] })
      else fail p err_parse

  unfoldable pub dispatch_value_start : Parser N → ℕ → Status × Parser N
  dispatch_value_start p c =
      if wants_key p.frames
      then (if c == b'"'
          then start_value (record p { parsing_key = true }) c
          else fail (record p { parsing_key = false }) err_parse)
      else start_value (record p { parsing_key = false }) c

  -- A byte between tokens inside a container.
  unfoldable pub expected : Expect → Parser N → Frame N → List (Frame N) → ℕ → Status × Parser N
  expected elem_or_close p f fs c =
      if c == close_char f.container then pop_container grants p f fs else dispatch_value_start p c
  expected elem p f fs c = dispatch_value_start p c
  expected comma_or_close p f fs c =
      if c == close_char f.container
      then pop_container grants p f fs
      else if c == b','
      then (ok, record p { frames = record f { expect = elem } ∷ fs })
      else fail p err_parse
  expected colon p f fs c =
      if c == b':'
      then (ok, record p { frames = record f { expect = member_value } ∷ fs })
      else fail p err_parse
  expected member_value p f fs c = dispatch_value_start p c

  abbrev pub in_frames : Parser N → List (Frame N) → ℕ → Status × Parser N
  in_frames p [] c = dispatch_value_start p c
  in_frames p (f ∷ fs) c = expected f.expect p f fs c

  unfoldable pub process_between_tokens : Parser N → ℕ → Status × Parser N
  process_between_tokens p c = if is_ws c then (ok, p) else in_frames p p.frames c

  -- `p->literal[0]` tells the three literals apart.
  abbrev pub literal_value : ℕ → Value N
  literal_value c = if c == b'n' then null else boolean (c == b't')

  unfoldable pub handle_literal_byte : Parser N → ℕ → Status × Parser N
  handle_literal_byte p c =
      let q = record p { literal_index = p.literal_index + 1 } in
      if not (c == get_or p.literal p.literal_index 0)
      then fail p err_parse
      else if not (get_or p.literal (p.literal_index + 1) 0 == 0)
      then (ok, q)
      else attach_new grants q (new_scalar (grants arena) (literal_value (get_or p.literal 0 0)))

  abbrev pub consumed : Status × Parser N → Status × Parser N × Bool
  consumed r = (r.0, r.1, true)

  unfoldable pub step_in : State → Parser N → ℕ → Status × Parser N × Bool
  step_in between p c = consumed (process_between_tokens p c)
  step_in in_string p c = consumed (handle_string_byte grants p c)
  step_in in_escape p c = consumed (handle_string_escape_byte grants p c)
  step_in in_unicode p c = consumed (handle_string_unicode_byte grants p c)
  step_in in_number p c = handle_number_byte strtod grants p c
  step_in in_literal p c = consumed (handle_literal_byte p c)
  step_in done p c = consumed (if is_ws c then (ok, p) else fail p err_parse)
  step_in error p c = (err_parse, p, true)

  unfoldable pub step : Parser N → ℕ → Status × Parser N × Bool
  step p c = step_in p.state p c

  -- `none`: the fuel ran out.
  unfoldable pub feed_loop : ℕ → Parser N → Bytes → Option (Status × Parser N)
  feed_loop zero p [] = some (ok, p)
  feed_loop (suc f) p [] = some (ok, p)
  feed_loop zero p (c ∷ cs) = none
  feed_loop (suc f) p (c ∷ cs) =
      let r = step p c in
      let rest = feed_loop f r.1 (if r.2 then cs else c ∷ cs) in
      if is_ok r.0 then rest else some (r.0, r.1)

  -- A byte takes two steps at most.
  unfoldable pub feed : Parser N → Bytes → Option (Status × Parser N)
  feed p xs = feed_loop (2 * length xs) p xs

  abbrev pub is_done : State → Bool
  is_done done = true
  is_done _ = false

  unfoldable pub finish_number : Status × Parser N → Status × Parser N
  finish_number r =
      if not (is_ok r.0) then r else if is_done r.1.state then (ok, r.1) else fail r.1 err_parse

  unfoldable pub finish_in : State → Parser N → Status × Parser N
  finish_in done p = (ok, p)
  finish_in in_number p = finish_number (finalize_number strtod grants p)
  finish_in _ p = fail p err_parse

  unfoldable pub finish : Parser N → Status × Parser N
  finish p = finish_in p.state p

  -- `oi_json_parser_root`
  unfoldable pub parser_root : Parser N → Option (Value N)
  parser_root p = if is_done p.state then p.root else none

  unfoldable pub parser_done : Parser N → Bool
  parser_done p = is_done p.state

  abbrev is_error : State → Bool
  is_error error = true
  is_error _ = false

  unfoldable pub parser_failed : Parser N → Bool
  parser_failed p = is_error p.state
