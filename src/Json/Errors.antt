-- ===== src/Json/Errors.antt =====
-- src/json_parse.c: a call that fails puts the parser in its error state, and it stays there.
use oi_c.Prelude.{
  ℕ, ◌+◌, ◌*◌, ◌≡◌, ◌⊎◌, inl, inr, refl, ap, ◌∙◌, Bool, true, false, List, [], ◌∷◌, length, get_or,
  Bytes, Option, none, some, arith,
}
use oi_c.Http.{hex_digit}
use oi_c.Json.Feed.{byte_step, feed_bytes, feed-feed_bytes}
use oi_c.Json.Numbers.{finalize_number, handle_number_byte}
use oi_c.Json.Parser.{
  start_value, dispatch_value_start, expected, in_frames, process_between_tokens,
  handle_literal_byte, literal_value, step, step_in, feed, finish, finish_in,
}
use oi_c.Json.State.{
  Memory, arena, State, between, in_string, in_escape, in_unicode, in_number, in_literal, done,
  error, Expect, elem_or_close, elem, comma_or_close, colon, member_value, Container, array_of,
  object_of, Frame, Parser, appended, str_buf_reserve, str_buf_append_bytes, push_frame, extended,
  attached, attach_to, attach_completed, attach_completed_key, closed, pop_container,
}
use oi_c.Json.Strings.{
  mapped, combined, attach_new, finalize_string_value, handle_string_byte, unescape,
  handle_string_escape_byte, finish_unicode, add_hex, handle_string_unicode_byte,
}
use oi_c.Json.Value.{Value, nil, end, new_scalar, new_string, number}
use oi_c.Utf8.Encode.{emit_utf8}
use oi_c.Status.{Status, ok, err_parse, is_ok}

module _ {N : Type 0} where
  -- OI_OK, or the error state.
  abbrev pub Fails : Status × Parser N → Type 0
  Fails r = (is_ok r.0 ≡ true) ⊎ (r.1.state ≡ error)

  appended-Fails : (bytes : Bytes) (r : Status × Parser N) → Fails (appended bytes r)
  appended-Fails bytes (ok, p) = inl refl
  appended-Fails bytes (e, p) = inr refl

  attached-Fails :
      (p : Parser N) (f : Frame N) (fs : List (Frame N)) (o : Option (Container N))
      → Fails (attached p f fs o)
  attached-Fails p f fs none = inr refl
  attached-Fails p f fs (some c) = inl refl

module _ {N : Type 0} (strtod : Bytes → N × ℕ) (grants : Memory → ℕ → Bool) where
  str_buf_append_bytes-Fails :
      (p : Parser N) (bytes : Bytes) → Fails (str_buf_append_bytes grants p bytes)
  unfolding str_buf_append_bytes
  str_buf_append_bytes-Fails p bytes =
      appended-Fails bytes (str_buf_reserve grants p (length bytes))

  push_frame-Fails : (p : Parser N) (c : Container N) → Fails (push_frame grants p c)
  unfolding push_frame
  push_frame-Fails p c = ground arith

  attach_to-Fails :
      (p : Parser N) (fs : List (Frame N)) (v : Value N) → Fails (attach_to grants p fs v)
  unfolding attach_to
  attach_to-Fails p [] v = inl refl
  attach_to-Fails p (f ∷ fs) v = attached-Fails p f fs (extended grants f.container f.pending_key v)

  attach_completed-Fails : (p : Parser N) (v : Value N) → Fails (attach_completed grants p v)
  unfolding attach_completed
  attach_completed-Fails p v = attach_to-Fails p p.frames v

  attach_new-Fails : (p : Parser N) (o : Option (Value N)) → Fails (attach_new grants p o)
  attach_new-Fails p none = inr refl
  attach_new-Fails p (some v) = attach_completed-Fails p v

  attach_completed_key-Fails : (p : Parser N) → Fails (attach_completed_key grants p)
  unfolding attach_completed_key
  attach_completed_key-Fails p = ground arith

  handle_string_byte-Fails : (p : Parser N) (c : ℕ) → Fails (handle_string_byte grants p c)
  unfolding handle_string_byte finalize_string_value
  handle_string_byte-Fails p c = ground (
    arith,
    attach_completed_key-Fails p,
    attach_new-Fails p (new_string (grants arena) p.text),
    str_buf_append_bytes-Fails p (c ∷ []),
  )

  unescape-Fails : (p : Parser N) (o : Option ℕ) → Fails (unescape grants p o)
  unescape-Fails p none = inr refl
  unescape-Fails p (some m) = str_buf_append_bytes-Fails (record p { state = in_string }) (m ∷ [])

  handle_string_escape_byte-Fails :
      (p : Parser N) (c : ℕ) → Fails (handle_string_escape_byte grants p c)
  unfolding handle_string_escape_byte
  handle_string_escape_byte-Fails p c = ground (arith, unescape-Fails p (mapped c))

  finish_unicode-Fails : (p : Parser N) (cp : ℕ) → Fails (finish_unicode grants p cp)
  unfolding finish_unicode
  finish_unicode-Fails p cp = ground (
    arith,
    str_buf_append_bytes-Fails (record p { pending_high_surrogate = false })
        (emit_utf8 (combined p.high_surrogate_value cp)),
    str_buf_append_bytes-Fails p (emit_utf8 cp),
  )

  add_hex-Fails : (p : Parser N) (o : Option ℕ) → Fails (add_hex grants p o)
  unfolding add_hex
  add_hex-Fails p none = inr refl
  add_hex-Fails p (some d) =
      let v = p.unicode_value * 16 + d in
      ground (
        arith,
        finish_unicode-Fails
            (record p {
              unicode_value = v;
              unicode_hex_count = p.unicode_hex_count + 1;
              state = in_string;
            })
            v,
      )

  handle_string_unicode_byte-Fails :
      (p : Parser N) (c : ℕ) → Fails (handle_string_unicode_byte grants p c)
  unfolding handle_string_unicode_byte
  handle_string_unicode_byte-Fails p c = add_hex-Fails p (hex_digit c)

  pub finalize_number-Fails : (p : Parser N) → Fails (finalize_number strtod grants p)
  unfolding finalize_number
  finalize_number-Fails p =
      ground (arith, attach_new-Fails p (new_scalar (grants arena) (number (strtod p.digits).0)))

  start_value-Fails : (p : Parser N) (c : ℕ) → Fails (start_value strtod grants p c)
  unfolding start_value
  start_value-Fails p c =
      ground (arith, push_frame-Fails p (object_of end), push_frame-Fails p (array_of nil))

  dispatch_value_start-Fails :
      (p : Parser N) (c : ℕ) → Fails (dispatch_value_start strtod grants p c)
  unfolding dispatch_value_start
  dispatch_value_start-Fails p c = ground (
    arith,
    start_value-Fails (record p { parsing_key = true }) c,
    start_value-Fails (record p { parsing_key = false }) c,
  )

  pop_container-Fails :
      (p : Parser N) (f : Frame N) (fs : List (Frame N)) → Fails (pop_container grants p f fs)
  unfolding pop_container
  pop_container-Fails p f fs =
      attach_completed-Fails (record p { frames = fs }) (closed f.container)

  expected-Fails :
      (e : Expect) (p : Parser N) (f : Frame N) (fs : List (Frame N)) (c : ℕ)
      → Fails (expected strtod grants e p f fs c)
  unfolding expected
  expected-Fails elem_or_close p f fs c =
      ground (arith, pop_container-Fails p f fs, dispatch_value_start-Fails p c)
  expected-Fails elem p f fs c = dispatch_value_start-Fails p c
  expected-Fails comma_or_close p f fs c = ground (arith, pop_container-Fails p f fs)
  expected-Fails colon p f fs c = ground arith
  expected-Fails member_value p f fs c = dispatch_value_start-Fails p c

  in_frames-Fails :
      (p : Parser N) (fs : List (Frame N)) (c : ℕ) → Fails (in_frames strtod grants p fs c)
  in_frames-Fails p [] c = dispatch_value_start-Fails p c
  in_frames-Fails p (f ∷ fs) c = expected-Fails f.expect p f fs c

  handle_literal_byte-Fails : (p : Parser N) (c : ℕ) → Fails (handle_literal_byte strtod grants p c)
  unfolding handle_literal_byte
  handle_literal_byte-Fails p c = ground (
    arith,
    attach_new-Fails (record p { literal_index = p.literal_index + 1 })
        (new_scalar (grants arena) (literal_value strtod grants (get_or p.literal 0 0))),
  )

  abbrev StepFails : Status × Parser N × Bool → Type 0
  StepFails r = (is_ok r.0 ≡ true) ⊎ (r.1.state ≡ error)

  step_in-Fails :
      (s : State) (p : Parser N) (c : ℕ) → p.state ≡ s → StepFails (step_in strtod grants s p c)
  unfolding step_in process_between_tokens handle_number_byte
  step_in-Fails between p c e = ground (arith, in_frames-Fails p p.frames c)
  step_in-Fails in_string p c e = handle_string_byte-Fails p c
  step_in-Fails in_escape p c e = handle_string_escape_byte-Fails p c
  step_in-Fails in_unicode p c e = handle_string_unicode_byte-Fails p c
  step_in-Fails in_number p c e = ground (arith, finalize_number-Fails p)
  step_in-Fails in_literal p c e = handle_literal_byte-Fails p c
  step_in-Fails done p c e = ground arith
  step_in-Fails error p c e = inr e

  byte_step-Fails : (p : Parser N) (c : ℕ) → Fails (byte_step strtod grants p c)
  unfolding byte_step step
  byte_step-Fails p c =
      let q = (step_in strtod grants p.state p c).1 in
      ground (arith, step_in-Fails p.state p c refl, step_in-Fails q.state q c refl)

  feed_bytes-Fails : (xs : Bytes) (p : Parser N) → Fails (feed_bytes strtod grants p xs)
  unfolding feed_bytes
  feed_bytes-Fails [] p = inl refl
  feed_bytes-Fails (c ∷ cs) p =
      ground (arith, feed_bytes-Fails cs (byte_step strtod grants p c).1, byte_step-Fails p c)

  -- Every further byte is OI_ERR_PARSE and changes nothing, and so is the end.
  unfoldable pub Stuck : Parser N → Type 0
  Stuck p =
      ((c : ℕ) (cs : Bytes) → feed strtod grants p (c ∷ cs) ≡ some (err_parse, p))
      × ((finish strtod grants p).0 ≡ err_parse)

  error_step :
      (p : Parser N) (c : ℕ) → p.state ≡ error → step strtod grants p c ≡ (err_parse, p, true)
  unfolding step step_in
  error_step p c e = ap (λ s. step_in strtod grants s p c) e

  error_byte :
      (p : Parser N) (c : ℕ) → p.state ≡ error → byte_step strtod grants p c ≡ (err_parse, p)
  unfolding byte_step
  error_byte p c e = simp (error_step p c e) refl

  error-Stuck : (p : Parser N) → p.state ≡ error → Stuck p
  unfolding Stuck feed_bytes finish finish_in
  error-Stuck p e = (
    (λ c cs. feed-feed_bytes strtod grants p (c ∷ cs) ∙ ap some (simp (error_byte p c e) refl)),
    ap (λ s. (finish_in strtod grants s p).0) e,
  )

  -- A feed of the JSON parser has a result: it says OI_OK, or from then on every further byte is
  -- OI_ERR_PARSE and changes nothing, and so is the call that finishes.
  pub feed-Stuck :
      (p : Parser N) (xs : Bytes)
      → (r : Status × Parser N) × (feed strtod grants p xs ≡ some r)
        × ((is_ok r.0 ≡ true) ⊎ Stuck r.1)
  feed-Stuck p xs = (
    feed_bytes strtod grants p xs,
    feed-feed_bytes strtod grants p xs,
    elim (feed_bytes-Fails xs p) [ inl e ↦ inl e | inr e ↦ inr (error-Stuck _ e) ],
  )
