-- ===== src/Json/Members.antt =====
-- src/json_parse.c: commas, keys and colons, with memory at hand.
use oi_c.Prelude.{
  length, ◌+◌, arith, ℕ, ◌≡◌, inl, refl, ap, ◌∙◌, Bool, true, false, List, [], ◌∷◌, ◌++◌,
  if◌then◌else◌, Bytes,
}
use oi_c.Json.Attach.{Plenty, Takes}
use oi_c.Json.Brackets.{in_array, in_object, between-Goes, close_array-Ready, close_object-Ready}
use oi_c.Json.Feed.{Settled}
use oi_c.Json.Numbers.{is_number_continuation, is_digit}
use oi_c.Json.Parser.{
  is_ws, wants_key, start_value, dispatch_value_start, expected, in_frames, step_in,
}
use oi_c.Json.State.{
  Memory, between, in_string, Expect, elem_or_close, elem, comma_or_close, colon, member_value,
  Container, array_of, object_of, Frame, Parser, attach_completed_key, keyed,
}
use oi_c.Json.Steps.{Ready, Attached, Goes, append-Goes, none-Goes, step-Goes, Rests, rests-Goes}
use oi_c.Json.Strings.{handle_string_byte, finalize_string_value}
use oi_c.Json.Text.{Inside, Holds, escaped_all-Goes}
use oi_c.Json.Value.{Items, Members, array, object}
use oi_c.Json.Walk.{escaped_all, quoted, comma}
use oi_c.Status.{ok}

-- Before the first value of a container, and behind a value.
abbrev pub awaits : Bool → Expect
awaits first = if first then elem_or_close else comma_or_close

abbrev pub behind_comma : Bool → Expect
behind_comma first = if first then elem_or_close else elem

module _ {N : Type 0} (strtod : Bytes → N × ℕ) (grants : Memory → ℕ → Bool)
    (plenty : Plenty grants) where
  -- At the beginning of a container, or behind a value of it.
  abbrev pub At : Bool → Frame N → List (Frame N) → Parser N → Type 0
  At first f fs p =
      if first then Ready between (f ∷ fs) p else Rests strtod grants (Ready between (f ∷ fs)) p

  at_between :
      (f : Frame N) (fs : List (Frame N)) (q : Parser N)
      → Ready between (f ∷ fs) q
      → Settled strtod grants q
  at_between f fs q r = inl r.in_state

  comma-Ready :
      (c : Container N) (fs : List (Frame N)) (p : Parser N)
      → Ready between (record { container = c; pending_key = []; expect = comma_or_close } ∷ fs) p
      → Goes strtod grants p
          (b',' ∷ [])
          (Ready between (record { container = c; pending_key = []; expect = elem } ∷ fs))
  unfolding expected is_ws
  comma-Ready (array_of items) fs p a =
      between-Goes strtod grants plenty b',' (in_array items comma_or_close ∷ fs) p
        (ok, record p { frames = in_array items elem ∷ fs }) a refl refl
        (
          refl,
          record { in_state = a.in_state; stack = refl; positive = a.positive; sized = a.sized },
        )
  comma-Ready (object_of members) fs p a =
      between-Goes strtod grants plenty b',' (in_object members [] comma_or_close ∷ fs) p
        (ok, record p { frames = in_object members [] elem ∷ fs }) a refl refl
        (
          refl,
          record { in_state = a.in_state; stack = refl; positive = a.positive; sized = a.sized },
        )

  pub comma-Goes :
      (first : Bool) (c : Container N) (fs : List (Frame N)) (p : Parser N)
      → At first (record { container = c; pending_key = []; expect = awaits first }) fs p
      → Goes strtod grants p (comma first) (
          Ready between
            (record { container = c; pending_key = []; expect = behind_comma first } ∷ fs))
  unfolding is_number_continuation is_digit
  comma-Goes true c fs p a = none-Goes strtod grants p a
  comma-Goes false c fs p a =
      rests-Goes strtod grants p b',' a refl (at_between _ fs) (comma-Ready c fs)

  pub close_array-Goes :
      (first : Bool) (items : Items N) (fs : List (Frame N)) (p : Parser N)
      → Takes fs
      → At first (in_array items (awaits first)) fs p
      → Goes strtod grants p (b']' ∷ []) (Attached fs (array items))
  unfolding is_number_continuation is_digit
  close_array-Goes true items fs p t a =
      close_array-Ready strtod grants plenty elem_or_close items fs p refl t a
  close_array-Goes false items fs p t a =
      rests-Goes strtod grants p b']' a refl (at_between _ fs)
        λ q. close_array-Ready strtod grants plenty comma_or_close items fs q refl t

  pub close_object-Goes :
      (first : Bool) (members : Members N) (fs : List (Frame N)) (p : Parser N)
      → Takes fs
      → At first (in_object members [] (awaits first)) fs p
      → Goes strtod grants p (b'}' ∷ []) (Attached fs (object members))
  unfolding is_number_continuation is_digit
  close_object-Goes true members fs p t a =
      close_object-Ready strtod grants plenty elem_or_close members fs p refl t a
  close_object-Goes false members fs p t a =
      rests-Goes strtod grants p b'}' a refl (at_between _ fs)
        λ q. close_object-Ready strtod grants plenty comma_or_close members fs q refl t

  -- The quote that opens a key.
  quote-Goes :
      (first : Bool) (members : Members N) (fs : List (Frame N)) (p : Parser N)
      → Ready between (in_object members [] (behind_comma first) ∷ fs) p
      → Goes strtod grants p
          (34 ∷ [])
          (Inside in_string true (in_object members [] (behind_comma first) ∷ fs) [])
  unfolding expected is_ws wants_key dispatch_value_start start_value
  quote-Goes first members fs p a =
      between-Goes strtod grants plenty 34 (in_object members [] (behind_comma first) ∷ fs) p
        (
          ok,
          record p {
            parsing_key = true;
            state = in_string;
            text = [];
            pending_high_surrogate = false;
          },
        )
        a refl (starts first (a.stack))
        (
          refl,
          record {
            in_state = refl;
            stack = a.stack;
            read = refl;
            for_key = refl;
            whole = refl;
            cap = (a.positive, a.sized);
          },
        )
    where
      starts :
          (b : Bool)
          → p.frames ≡ in_object members [] (behind_comma b) ∷ fs
          → in_frames strtod grants p (in_object members [] (behind_comma b) ∷ fs) 34 ≡ (
            ok,
            record p {
              parsing_key = true;
              state = in_string;
              text = [];
              pending_high_surrogate = false;
            },
          )
      starts true e = let w : wants_key p.frames ≡ true = rw e refl in simp w refl
      starts false e = let w : wants_key p.frames ≡ true = rw e refl in simp w refl

  -- A key in quotes, and its colon.
  pub key-Goes :
      (first : Bool) (key : Bytes) (members : Members N) (fs : List (Frame N)) (p : Parser N)
      → Holds key
      → Ready between (in_object members [] (behind_comma first) ∷ fs) p
      → Goes strtod grants p (quoted key) (Ready between (in_object members key colon ∷ fs))
  unfolding quoted step_in handle_string_byte finalize_string_value attach_completed_key
  key-Goes first key members fs p h a =
      let gs = in_object members [] (behind_comma first) ∷ fs in
      append-Goes strtod grants p (34 ∷ []) (escaped_all key ++ (34 ∷ []))
        (quote-Goes first members fs p a)
        λ p1 i1.
          append-Goes strtod grants p1 (escaped_all key) (34 ∷ [])
            (escaped_all-Goes grants plenty strtod key [] p1 i1 h)
            λ q i.
              step-Goes strtod grants q 34 in_string (ok, keyed q gs) i.in_state
                (let e : step_in strtod grants in_string q 34 ≡ (ok, keyed q q.frames, true) =
                    simp
                      (
                        i.whole,
                        i.for_key,
                        plenty.from_arena (length q.text + 1) (omega arith)
                            (omega (arith, h, ap length i.read)),
                      )
                      refl in
                  e ∙ ap (λ x. (ok, keyed q x, true)) i.stack)
                (
                  refl,
                  record {
                    in_state = refl;
                    stack = ap (λ x. in_object members x colon ∷ fs) i.read;
                    positive = i.cap.0;
                    sized = i.cap.1;
                  },
                )

  pub colon-Goes :
      (key : Bytes) (members : Members N) (fs : List (Frame N)) (p : Parser N)
      → Ready between (in_object members key colon ∷ fs) p
      → Goes strtod grants p (b':' ∷ []) (Ready between (in_object members key member_value ∷ fs))
  unfolding expected is_ws
  colon-Goes key members fs p a =
      between-Goes strtod grants plenty b':' (in_object members key colon ∷ fs) p
        (ok, record p { frames = in_object members key member_value ∷ fs }) a refl refl
        (
          refl,
          record { in_state = a.in_state; stack = refl; positive = a.positive; sized = a.sized },
        )
