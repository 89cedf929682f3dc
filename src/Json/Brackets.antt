-- ===== src/Json/Brackets.antt =====
-- src/json_parse.c: the bytes between values, with memory at hand.
use oi_c.Prelude.{
  ℕ, ◌<◌, ◌≡◌, inl, inr, refl, ap, ◌∙◌, Bool, true, false, List, [], ◌∷◌, leb, ◌==◌, length, Bytes,
  Bool-cases, arith,
}
use oi_c.Json.Attach.{Plenty, Takes, attach_to-Attached}
use oi_c.Json.Parser.{
  is_ws, start_value, expected, in_frames, process_between_tokens, consumed, step_in,
}
use oi_c.Json.Starts.{takes_value, between_start, Begins}
use oi_c.Json.State.{
  Memory, between, Expect, elem_or_close, elem, comma_or_close, colon, member_value, Container,
  array_of, object_of, Frame, Parser, new_frame, doubled, push_frame, attach_completed, closed,
  pop_container,
}
use oi_c.Json.Steps.{Ready, Attached, Goes, step-Goes}
use oi_c.Json.Value.{Items, nil, Members, end, array, object}
use oi_c.Status.{Status, ok}

module _ {N : Type 0} where
  -- An array and an object that are open.
  abbrev pub in_array : Items N → Expect → Frame N
  in_array items e = record { container = array_of items; pending_key = []; expect = e }

  abbrev pub in_object : Members N → Bytes → Expect → Frame N
  in_object members key e = record { container = object_of members; pending_key = key; expect = e }

module _ {N : Type 0} (strtod : Bytes → N × ℕ) (grants : Memory → ℕ → Bool)
    (plenty : Plenty grants) where
  push_frame-Ready :
      (c : Container N) (fs : List (Frame N)) (p : Parser N)
      → Ready between fs p
      → length fs < 1000
      → ((push_frame grants p c).0 ≡ ok)
        × Ready between (new_frame c ∷ fs) (push_frame grants p c).1
  unfolding push_frame
  push_frame-Ready c fs p r l =
      let d : leb 1000 (length p.frames) ≡ false = ground (arith, ap length r.stack) in
      elim (Bool-cases (length p.frames == p.frame_cap)) [
        | inl e ↦
            simp (d, e, plenty.from_heap, plenty.from_arena 32 (omega arith) (omega arith))
              (refl, pushed (doubled p.frame_cap))
        | inr e ↦
            simp (d, e, plenty.from_heap, plenty.from_arena 32 (omega arith) (omega arith))
              (refl, pushed p.frame_cap)
      ]
    where
      pushed :
          (k : ℕ)
          → Ready between
              (new_frame c ∷ fs)
              (record p { frames = new_frame c ∷ p.frames; frame_cap = k })
      pushed k = record {
        in_state = r.in_state;
        stack = ap (λ x. new_frame c ∷ x) r.stack;
        positive = r.positive;
        sized = r.sized;
      }

  unkeyed :
      (fs : List (Frame N)) (p : Parser N)
      → Ready between fs p
      → Ready between fs (record p { parsing_key = false })
  unkeyed fs p r = record {
    in_state = r.in_state;
    stack = r.stack;
    positive = r.positive;
    sized = r.sized;
  }

  open-Goes :
      (b : ℕ) (c : Container N) (fs : List (Frame N)) (p : Parser N)
      → Begins b
      → start_value strtod grants (record p { parsing_key = false }) b
        ≡ push_frame grants (record p { parsing_key = false }) c
      → Ready between fs p
      → takes_value fs ≡ true
      → length fs < 1000
      → Goes strtod grants p (b ∷ []) (Ready between (new_frame c ∷ fs))
  open-Goes b c fs p g e r o l =
      step-Goes strtod grants p b between (push_frame grants (record p { parsing_key = false }) c)
        r.in_state (between_start strtod grants fs p b r o g ∙ ap (λ x. (x.0, x.1, true)) e)
        (push_frame-Ready c fs (record p { parsing_key = false }) (unkeyed fs p r) l)

  pub open_array-Goes :
      (fs : List (Frame N)) (p : Parser N)
      → Ready between fs p
      → takes_value fs ≡ true
      → length fs < 1000
      → Goes strtod grants p (b'[' ∷ []) (Ready between (in_array nil elem_or_close ∷ fs))
  unfolding is_ws start_value
  open_array-Goes fs p = open-Goes b'[' (array_of nil) fs p (refl, refl) refl

  pub open_object-Goes :
      (fs : List (Frame N)) (p : Parser N)
      → Ready between fs p
      → takes_value fs ≡ true
      → length fs < 1000
      → Goes strtod grants p (b'{' ∷ []) (Ready between (in_object end [] elem_or_close ∷ fs))
  unfolding is_ws start_value
  open_object-Goes fs p = open-Goes b'{' (object_of end) fs p (refl, refl) refl

  -- A byte between the tokens of a container.
  pub between-Goes :
      {Q : Parser N → Type 0} (c : ℕ) (fs : List (Frame N)) (p : Parser N) (r : Status × Parser N)
      → Ready between fs p
      → is_ws c ≡ false
      → in_frames strtod grants p fs c ≡ r
      → (r.0 ≡ ok) × Q r.1
      → Goes strtod grants p (c ∷ []) Q
  unfolding step_in process_between_tokens
  between-Goes c fs p r a w e q =
      let whole : process_between_tokens strtod grants p c ≡ r =
        simp w (ap (λ x. in_frames strtod grants p x c) a.stack ∙ e) in
      step-Goes strtod grants p c between r a.in_state (ap (consumed strtod grants) whole) q

  pop-Attached :
      (f : Frame N) (fs : List (Frame N)) (p : Parser N)
      → Ready between (f ∷ fs) p
      → Takes fs
      → let r = pop_container grants p f fs in (r.0 ≡ ok) × Attached fs (closed f.container) r.1
  unfolding pop_container attach_completed
  pop-Attached f fs p a t =
      attach_to-Attached grants plenty (record p { frames = fs }) fs (closed f.container)
        (a.positive, a.sized) t

  -- A container may be closed before its first value and behind a value.
  abbrev pub may_close : Expect → Bool
  may_close elem_or_close = true
  may_close comma_or_close = true
  may_close _ = false

  pub close_array-Ready :
      (e : Expect) (items : Items N) (fs : List (Frame N)) (p : Parser N)
      → may_close e ≡ true
      → Takes fs
      → Ready between (in_array items e ∷ fs) p
      → Goes strtod grants p (b']' ∷ []) (Attached fs (array items))
  unfolding expected is_ws
  close_array-Ready elem_or_close items fs p m t a =
      between-Goes b']' (in_array items elem_or_close ∷ fs) p _ a refl refl
        (pop-Attached _ fs p a t)
  close_array-Ready comma_or_close items fs p m t a =
      between-Goes b']' (in_array items comma_or_close ∷ fs) p _ a refl refl
        (pop-Attached _ fs p a t)
  close_array-Ready elem items fs p m t a = cc
  close_array-Ready colon items fs p m t a = cc
  close_array-Ready member_value items fs p m t a = cc

  pub close_object-Ready :
      (e : Expect) (members : Members N) (fs : List (Frame N)) (p : Parser N)
      → may_close e ≡ true
      → Takes fs
      → Ready between (in_object members [] e ∷ fs) p
      → Goes strtod grants p (b'}' ∷ []) (Attached fs (object members))
  unfolding expected is_ws
  close_object-Ready elem_or_close members fs p m t a =
      between-Goes b'}' (in_object members [] elem_or_close ∷ fs) p _ a refl refl
        (pop-Attached _ fs p a t)
  close_object-Ready comma_or_close members fs p m t a =
      between-Goes b'}' (in_object members [] comma_or_close ∷ fs) p _ a refl refl
        (pop-Attached _ fs p a t)
  close_object-Ready elem members fs p m t a = cc
  close_object-Ready colon members fs p m t a = cc
  close_object-Ready member_value members fs p m t a = cc
