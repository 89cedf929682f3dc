-- ===== src/Json/Bounds.antt =====
-- src/json_parse.c: the parser's buffers hold what it puts there, whatever bytes it is fed.
use oi_c.Prelude.{
  ℕ, ◌+◌, ◌-◌, ◌*◌, ◌≤◌, ◌<◌, ◌≡◌, length-append, size_max, inl, inr, refl, ap, Bool, true, false,
  List, [], ◌∷◌, ltb, leb, length, get_or, Bytes, Bool-cases, leb→le, Option, none, some, arith,
}
use oi_c.Bytebuf.{Growth, grown, overflow, unfinished, grow}
use oi_c.Bytebuf.Laws.{Ends, grow-Ends}
use oi_c.Http.{hex_digit}
use oi_c.Json.Feed.{byte_step, feed_bytes, feed-feed_bytes}
use oi_c.Json.Numbers.{finalize_number, handle_number_byte}
use oi_c.Json.Parser.{
  start_value, dispatch_value_start, expected, in_frames, process_between_tokens,
  handle_literal_byte, literal_value, step, step_in, feed,
}
use oi_c.Json.State.{
  Memory, arena, State, between, in_string, in_escape, in_unicode, in_number, in_literal, done,
  error, Expect, elem_or_close, elem, comma_or_close, colon, member_value, Container, array_of,
  object_of, Frame, Parser, appended, str_buf_grown, str_buf_reserve, str_buf_append_bytes,
  push_frame, extended, attached, attach_to, attach_completed, keyed, attach_completed_key, closed,
  pop_container,
}
use oi_c.Json.Strings.{
  mapped, combined, attach_new, finalize_string_value, handle_string_byte, unescape,
  handle_string_escape_byte, finish_unicode, add_hex, handle_string_unicode_byte,
}
use oi_c.Json.Value.{Value, nil, end, new_scalar, new_string, number}
use oi_c.Utf8.Encode.{emit_utf8}
use oi_c.Status.{Status}

-- frames[] has room for the stack, 1000 containers at most are open, str_buf has room for the text
-- and num_buf for the digits and a NUL.
abbrev pub Sizes : ℕ → ℕ → ℕ → ℕ → ℕ → Type 0
Sizes depth frame_cap text str_cap digits =
    (depth ≤ frame_cap)
    × (0 < frame_cap)
    × (frame_cap ≤ 1000)
    × (text ≤ str_cap)
    × (0 < str_cap)
    × (str_cap ≤ size_max)
    × (digits < 512)

module _ {N : Type 0} where
  unfoldable pub IsValid : Parser N → Type 0
  IsValid p = Sizes (length p.frames) p.frame_cap (length p.text) p.str_cap (length p.digits)

module _ {N : Type 0} (strtod : Bytes → N × ℕ) (grants : Memory → ℕ → Bool) where
  str_buf_grown-IsValid :
      (p : Parser N) (bytes : Bytes) (g : Growth)
      → IsValid p
      → 0 < length p.text + length bytes
      → Ends (length p.text + length bytes) g
      → IsValid (appended bytes (str_buf_grown grants p g)).1
  unfolding IsValid
  str_buf_grown-IsValid p bytes (grown c) v z e = ground (arith, length-append p.text bytes)
  str_buf_grown-IsValid p bytes overflow v z e = v
  str_buf_grown-IsValid p bytes unfinished v z e = absurd e

  str_buf_append_bytes-IsValid :
      (p : Parser N) (bytes : Bytes) → IsValid p → IsValid (str_buf_append_bytes grants p bytes).1
  unfolding IsValid str_buf_append_bytes str_buf_reserve
  str_buf_append_bytes-IsValid p bytes v =
      let needed : ℕ = length p.text + length bytes in
      let e : Ends needed (grow needed p.str_cap needed) =
        grow-Ends needed p.str_cap needed v.4 v.5 (omega arith) in
      elim (Bool-cases (ltb (size_max - length p.text) (length bytes))) [
        | inl a ↦ simp a v
        | inr a ↦ elim (Bool-cases (leb needed p.str_cap)) [
          | inl b ↦
              simp (a, b)
                (
                  v.0,
                  v.1,
                  v.2,
                  omega (arith, length-append p.text bytes, leb→le _ _ b),
                  v.4,
                  v.5,
                  v.6,
                )
          | inr b ↦
              simp (a, b)
                (str_buf_grown-IsValid p bytes (grow needed p.str_cap needed) v (ground arith) e)
        ]
      ]

  push_frame-IsValid :
      (p : Parser N) (c : Container N) → IsValid p → IsValid (push_frame grants p c).1
  unfolding IsValid push_frame
  push_frame-IsValid p c v = ground arith

  attached-IsValid :
      (p : Parser N) (f : Frame N) (fs : List (Frame N)) (o : Option (Container N))
      → IsValid (record p { frames = f ∷ fs })
      → IsValid (attached p f fs o).1
  unfolding IsValid
  attached-IsValid p f fs none v = v
  attached-IsValid p f fs (some c) v = v

  attach_to-IsValid :
      (p : Parser N) (fs : List (Frame N)) (w : Value N)
      → IsValid (record p { frames = fs })
      → IsValid (attach_to grants p fs w).1
  unfolding IsValid attach_to
  attach_to-IsValid p [] w v = v
  attach_to-IsValid p (f ∷ fs) w v =
      attached-IsValid p f fs (extended grants f.container f.pending_key w) v

  attach_completed-IsValid :
      (p : Parser N) (w : Value N) → IsValid p → IsValid (attach_completed grants p w).1
  unfolding IsValid attach_completed
  attach_completed-IsValid p w v = attach_to-IsValid p p.frames w v

  attach_new-IsValid :
      (p : Parser N) (o : Option (Value N)) → IsValid p → IsValid (attach_new grants p o).1
  unfolding IsValid
  attach_new-IsValid p none v = v
  attach_new-IsValid p (some w) v = attach_completed-IsValid p w v

  keyed-IsValid :
      (p : Parser N) (fs : List (Frame N)) → p.frames ≡ fs → IsValid p → IsValid (keyed p fs)
  unfolding IsValid
  keyed-IsValid p [] e v = v
  keyed-IsValid p (f ∷ fs) e v = ground (arith, ap length e)

  attach_completed_key-IsValid :
      (p : Parser N) → IsValid p → IsValid (attach_completed_key grants p).1
  unfolding IsValid attach_completed_key
  attach_completed_key-IsValid p v = ground (arith, keyed-IsValid p p.frames refl v)

  handle_string_byte-IsValid :
      (p : Parser N) (c : ℕ) → IsValid p → IsValid (handle_string_byte grants p c).1
  unfolding IsValid handle_string_byte finalize_string_value
  handle_string_byte-IsValid p c v = ground (
    arith,
    attach_completed_key-IsValid p v,
    attach_new-IsValid p (new_string (grants arena) p.text) v,
    str_buf_append_bytes-IsValid p (c ∷ []) v,
  )

  unescape-IsValid : (p : Parser N) (o : Option ℕ) → IsValid p → IsValid (unescape grants p o).1
  unfolding IsValid
  unescape-IsValid p none v = v
  unescape-IsValid p (some m) v =
      str_buf_append_bytes-IsValid (record p { state = in_string }) (m ∷ []) v

  handle_string_escape_byte-IsValid :
      (p : Parser N) (c : ℕ) → IsValid p → IsValid (handle_string_escape_byte grants p c).1
  unfolding IsValid handle_string_escape_byte
  handle_string_escape_byte-IsValid p c v = ground (arith, unescape-IsValid p (mapped c) v)

  finish_unicode-IsValid :
      (p : Parser N) (cp : ℕ) → IsValid p → IsValid (finish_unicode grants p cp).1
  unfolding IsValid finish_unicode
  finish_unicode-IsValid p cp v = ground (
    arith,
    str_buf_append_bytes-IsValid (record p { pending_high_surrogate = false })
        (emit_utf8 (combined p.high_surrogate_value cp)) v,
    str_buf_append_bytes-IsValid p (emit_utf8 cp) v,
  )

  add_hex-IsValid : (p : Parser N) (o : Option ℕ) → IsValid p → IsValid (add_hex grants p o).1
  unfolding IsValid add_hex
  add_hex-IsValid p none v = v
  add_hex-IsValid p (some d) v =
      let x = p.unicode_value * 16 + d in
      ground (
        arith,
        finish_unicode-IsValid
            (record p {
              unicode_value = x;
              unicode_hex_count = p.unicode_hex_count + 1;
              state = in_string;
            })
            x v,
      )

  handle_string_unicode_byte-IsValid :
      (p : Parser N) (c : ℕ) → IsValid p → IsValid (handle_string_unicode_byte grants p c).1
  unfolding IsValid handle_string_unicode_byte
  handle_string_unicode_byte-IsValid p c v = add_hex-IsValid p (hex_digit c) v

  finalize_number-IsValid : (p : Parser N) → IsValid p → IsValid (finalize_number strtod grants p).1
  unfolding IsValid finalize_number
  finalize_number-IsValid p v =
      ground
        (arith, attach_new-IsValid p (new_scalar (grants arena) (number (strtod p.digits).0)) v)

  start_value-IsValid :
      (p : Parser N) (c : ℕ) → IsValid p → IsValid (start_value strtod grants p c).1
  unfolding IsValid start_value
  start_value-IsValid p c v =
      ground (arith, push_frame-IsValid p (object_of end) v, push_frame-IsValid p (array_of nil) v)

  dispatch_value_start-IsValid :
      (p : Parser N) (c : ℕ) → IsValid p → IsValid (dispatch_value_start strtod grants p c).1
  unfolding IsValid dispatch_value_start
  dispatch_value_start-IsValid p c v = ground (
    arith,
    start_value-IsValid (record p { parsing_key = true }) c v,
    start_value-IsValid (record p { parsing_key = false }) c v,
  )

  pop_container-IsValid :
      (p : Parser N) (f : Frame N) (fs : List (Frame N))
      → IsValid (record p { frames = f ∷ fs })
      → IsValid (pop_container grants p f fs).1
  unfolding IsValid pop_container
  pop_container-IsValid p f fs v =
      attach_completed-IsValid (record p { frames = fs }) (closed f.container)
        (omega (arith, v.0), v.1, v.2, v.3, v.4, v.5, v.6)

  expected-IsValid :
      (e : Expect) (p : Parser N) (f : Frame N) (fs : List (Frame N)) (c : ℕ)
      → IsValid p
      → IsValid (record p { frames = f ∷ fs })
      → IsValid (expected strtod grants e p f fs c).1
  unfolding IsValid expected
  expected-IsValid elem_or_close p f fs c v w =
      ground (arith, pop_container-IsValid p f fs w, dispatch_value_start-IsValid p c v)
  expected-IsValid elem p f fs c v w = dispatch_value_start-IsValid p c v
  expected-IsValid comma_or_close p f fs c v w = ground (arith, pop_container-IsValid p f fs w)
  expected-IsValid colon p f fs c v w = ground arith
  expected-IsValid member_value p f fs c v w = dispatch_value_start-IsValid p c v

  in_frames-IsValid :
      (p : Parser N) (fs : List (Frame N)) (c : ℕ)
      → IsValid p
      → IsValid (record p { frames = fs })
      → IsValid (in_frames strtod grants p fs c).1
  unfolding IsValid
  in_frames-IsValid p [] c v w = dispatch_value_start-IsValid p c v
  in_frames-IsValid p (f ∷ fs) c v w = expected-IsValid f.expect p f fs c v w

  handle_literal_byte-IsValid :
      (p : Parser N) (c : ℕ) → IsValid p → IsValid (handle_literal_byte strtod grants p c).1
  unfolding IsValid handle_literal_byte
  handle_literal_byte-IsValid p c v = ground (
    arith,
    attach_new-IsValid (record p { literal_index = p.literal_index + 1 })
        (new_scalar (grants arena) (literal_value strtod grants (get_or p.literal 0 0))) v,
  )

  step_in-IsValid :
      (s : State) (p : Parser N) (c : ℕ) → IsValid p → IsValid (step_in strtod grants s p c).1
  unfolding IsValid step_in process_between_tokens handle_number_byte
  step_in-IsValid between p c v = ground (arith, in_frames-IsValid p p.frames c v v)
  step_in-IsValid in_string p c v = handle_string_byte-IsValid p c v
  step_in-IsValid in_escape p c v = handle_string_escape_byte-IsValid p c v
  step_in-IsValid in_unicode p c v = handle_string_unicode_byte-IsValid p c v
  step_in-IsValid in_number p c v =
      ground (arith, finalize_number-IsValid p v, length-append p.digits (c ∷ []))
  step_in-IsValid in_literal p c v = handle_literal_byte-IsValid p c v
  step_in-IsValid done p c v = ground arith
  step_in-IsValid error p c v = v

  byte_step-IsValid : (p : Parser N) (c : ℕ) → IsValid p → IsValid (byte_step strtod grants p c).1
  unfolding IsValid byte_step step
  byte_step-IsValid p c v =
      let a = step_in-IsValid p.state p c v in
      let q = (step_in strtod grants p.state p c).1 in
      ground (arith, a, step_in-IsValid q.state q c a)

  feed_bytes-IsValid :
      (xs : Bytes) (p : Parser N) → IsValid p → IsValid (feed_bytes strtod grants p xs).1
  unfolding IsValid feed_bytes
  feed_bytes-IsValid [] p v = v
  feed_bytes-IsValid (c ∷ cs) p v =
      let a = byte_step-IsValid p c v in
      ground (arith, a, feed_bytes-IsValid cs (byte_step strtod grants p c).1 a)

  -- A feed of the JSON parser has a result, and keeps the open containers within their allocation
  -- and below 1001, the string within its buffer, and the digits of a number below 512, whatever
  -- the bytes and the allocator.
  pub feed_document-IsValid :
      (xs : Bytes) (p : Parser N)
      → IsValid p
      → (r : Status × Parser N) × (feed strtod grants p xs ≡ some r) × IsValid r.1
  feed_document-IsValid xs p v =
      (feed_bytes strtod grants p xs, feed-feed_bytes strtod grants p xs, feed_bytes-IsValid xs p v)
