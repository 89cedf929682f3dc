-- ===== src/Json/Starts.antt =====
-- src/json_parse.c: scalars, from where a value may start to where it is attached, with memory at hand.
use oi_c.Prelude.{
  ℕ, ◌+◌, ◌≡◌, refl, ap, ◌∙◌, subst, Bool, true, false, List, [], ◌∷◌, ◌==◌, if◌then◌else◌, length,
  get_or, Bytes, codes, size_max, Option, none, some, arith,
}
use oi_c.Json.Attach.{Plenty, HasCap, Takes, attach_completed-Attached}
use oi_c.Json.Parser.{
  is_ws, wants_key, start_value, dispatch_value_start, expected, in_frames, process_between_tokens,
  consumed, handle_literal_byte, literal_value, begin_literal, step_in,
}
use oi_c.Json.State.{
  Memory, arena, between, in_string, in_literal, Expect, elem_or_close, elem, comma_or_close, colon,
  member_value, Container, array_of, object_of, Frame, Parser, attach_completed,
}
use oi_c.Json.Steps.{Ready, Attached, Goes, append-Goes, step-Goes}
use oi_c.Json.Strings.{attach_new, finalize_string_value, handle_string_byte}
use oi_c.Json.Text.{Inside, Holds, escaped_all-Goes}
use oi_c.Json.Value.{Value, null, boolean, string, new_scalar, new_string}
use oi_c.Json.Walk.{escaped_all, quoted}
use oi_c.Status.{ok}

-- A byte that cannot be taken for white space or for the end of an array.
abbrev pub Begins : ℕ → Type 0
Begins c = (is_ws c ≡ false) × ((c == b']') ≡ false)

module _ {N : Type 0} where
  -- Where a value may start: at the root, in an array that is open or behind a comma, or behind a key's colon.
  abbrev pub opens : Container N → Expect → Bool
  opens (array_of items) elem_or_close = true
  opens (array_of items) elem = true
  opens (object_of members) member_value = true
  opens _ _ = false

  abbrev pub takes_value : List (Frame N) → Bool
  takes_value [] = true
  takes_value (f ∷ fs) = opens f.container f.expect

module _ {N : Type 0} (strtod : Bytes → N × ℕ) (grants : Memory → ℕ → Bool) where
  dispatch_start :
      (p : Parser N) (c : ℕ)
      → wants_key p.frames ≡ false
      → dispatch_value_start strtod grants p c
        ≡ start_value strtod grants (record p { parsing_key = false }) c
  unfolding dispatch_value_start
  dispatch_start p c h = simp h refl

  expected_start :
      (k : Container N) (e : Expect) (p : Parser N) (f : Frame N) (fs : List (Frame N)) (c : ℕ)
      → f.container ≡ k
      → f.expect ≡ e
      → p.frames ≡ f ∷ fs
      → opens k e ≡ true
      → (c == b']') ≡ false
      → expected strtod grants e p f fs c
        ≡ start_value strtod grants (record p { parsing_key = false }) c
  unfolding expected wants_key
  expected_start (array_of items) elem_or_close p f fs c ek ee ep o h =
      let w : wants_key p.frames ≡ false = simp (ep, ek) refl in simp (ek, h) (dispatch_start p c w)
  expected_start (array_of items) elem p f fs c ek ee ep o h =
      dispatch_start p c (simp (ep, ek) refl)
  expected_start (object_of members) member_value p f fs c ek ee ep o h =
      dispatch_start p c (simp (ep, ek, ee) refl)
  expected_start (array_of items) comma_or_close p f fs c ek ee ep o h = cc
  expected_start (array_of items) colon p f fs c ek ee ep o h = cc
  expected_start (array_of items) member_value p f fs c ek ee ep o h = cc
  expected_start (object_of members) comma_or_close p f fs c ek ee ep o h = cc
  expected_start (object_of members) colon p f fs c ek ee ep o h = cc
  expected_start (object_of members) elem p f fs c ek ee ep o h = cc
  expected_start (object_of members) elem_or_close p f fs c ek ee ep o h = cc

  in_frames_start :
      (fs : List (Frame N)) (p : Parser N) (c : ℕ)
      → p.frames ≡ fs
      → takes_value fs ≡ true
      → (c == b']') ≡ false
      → in_frames strtod grants p fs c
        ≡ start_value strtod grants (record p { parsing_key = false }) c
  unfolding wants_key
  in_frames_start [] p c e o h = dispatch_start p c (simp e refl)
  in_frames_start (f ∷ fs) p c e o h = expected_start f.container f.expect p f fs c refl refl e o h

  pub between_start :
      (fs : List (Frame N)) (p : Parser N) (c : ℕ)
      → Ready between fs p
      → takes_value fs ≡ true
      → Begins c
      → let r = start_value strtod grants (record p { parsing_key = false }) c in
        step_in strtod grants between p c ≡ (r.0, r.1, true)
  unfolding step_in process_between_tokens
  between_start fs p c r o b =
      let e =
        ap (λ x. in_frames strtod grants p x c) r.stack ∙ in_frames_start fs p c r.stack o b.1 in
      let whole : process_between_tokens strtod grants p c
          ≡ start_value strtod grants (record p { parsing_key = false }) c =
        simp b.0 e in
      ap (consumed strtod grants) whole

module _ {N : Type 0} (strtod : Bytes → N × ℕ) (grants : Memory → ℕ → Bool)
    (plenty : Plenty grants) where
  pub attach_new-Attached :
      (p : Parser N) (fs : List (Frame N)) (v : Value N) (o : Option (Value N))
      → o ≡ some v
      → p.frames ≡ fs
      → HasCap p
      → Takes fs
      → ((attach_new grants p o).0 ≡ ok) × Attached fs v (attach_new grants p o).1
  attach_new-Attached p fs v none e s c t = cc
  attach_new-Attached p fs v (some w) e s c t =
      let same : w ≡ v = cc in
      subst
        (λ x.
          ((attach_completed grants p w).0 ≡ ok) × Attached fs x (attach_completed grants p w).1)
        same (attach_completed-Attached grants plenty p fs w s c t)

  -- The bytes of a literal, from its second one on.
  record Spelling (word : Bytes) (k : ℕ) (fs : List (Frame N)) (p : Parser N) : Type 0 where
    in_state : p.state ≡ in_literal
    stack : p.frames ≡ fs
    spelled : p.literal ≡ word
    index : p.literal_index ≡ k
    cap : HasCap p

  letter-Goes :
      (word : Bytes) (k c : ℕ) (fs : List (Frame N)) (p : Parser N)
      → Spelling word k fs p
      → (c == get_or word k 0) ≡ true
      → (get_or word (k + 1) 0 == 0) ≡ false
      → Goes strtod grants p (c ∷ []) (Spelling word (k + 1) fs)
  unfolding step_in handle_literal_byte
  letter-Goes word k c fs p s h n =
      let a : (c == get_or p.literal p.literal_index 0) ≡ true = rw (s.spelled, s.index) h in
      let b : (get_or p.literal (p.literal_index + 1) 0 == 0) ≡ false = rw (s.spelled, s.index) n in
      step-Goes strtod grants p c in_literal (ok, record p { literal_index = p.literal_index + 1 })
        s.in_state (simp (a, b) refl)
        (
          refl,
          record {
            in_state = s.in_state;
            stack = s.stack;
            spelled = s.spelled;
            index = ap (λ x. x + 1) s.index;
            cap = s.cap;
          },
        )

  last_letter-Goes :
      (word : Bytes) (k c : ℕ) (fs : List (Frame N)) (p : Parser N) (v : Value N)
      → Spelling word k fs p
      → (c == get_or word k 0) ≡ true
      → (get_or word (k + 1) 0 == 0) ≡ true
      → literal_value strtod grants (get_or word 0 0) ≡ v
      → Takes fs
      → Goes strtod grants p (c ∷ []) (Attached fs v)
  unfolding step_in handle_literal_byte new_scalar
  last_letter-Goes word k c fs p v s h n l t =
      let a : (c == get_or p.literal p.literal_index 0) ≡ true = rw (s.spelled, s.index) h in
      let b : (get_or p.literal (p.literal_index + 1) 0 == 0) ≡ true = rw (s.spelled, s.index) n in
      let w : literal_value strtod grants (get_or p.literal 0 0) ≡ v = rw s.spelled l in
      let q : Parser N = record p { literal_index = p.literal_index + 1 } in
      let o : Option (Value N) =
        new_scalar (grants arena) (literal_value strtod grants (get_or p.literal 0 0)) in
      step-Goes strtod grants p c in_literal (attach_new grants q o) s.in_state (simp (a, b) refl) (
        attach_new-Attached q fs v o
          (rw (plenty.from_arena 32 (omega arith) (omega arith)) (ap some w)) s.stack s.cap t)

  -- The first letter of a literal.
  literal-Goes :
      (word : Bytes) (c : ℕ) (fs : List (Frame N)) (p : Parser N)
      → Ready between fs p
      → takes_value fs ≡ true
      → Begins c
      → start_value strtod grants (record p { parsing_key = false }) c
        ≡ begin_literal (record p { parsing_key = false }) word
      → Goes strtod grants p (c ∷ []) (Spelling word 1 fs)
  literal-Goes word c fs p r o b e =
      let q : Parser N = record p { parsing_key = false } in
      step-Goes strtod grants p c between (begin_literal q word) r.in_state
        (between_start strtod grants fs p c r o b ∙ ap (λ x. (x.0, x.1, true)) e)
        (
          refl,
          record {
            in_state = refl;
            stack = r.stack;
            spelled = refl;
            index = refl;
            cap = (r.positive, r.sized);
          },
        )

  pub null-Goes :
      (fs : List (Frame N)) (p : Parser N)
      → Ready between fs p
      → takes_value fs ≡ true
      → Takes fs
      → Goes strtod grants p (codes "null") (Attached fs null)
  unfolding is_ws start_value
  null-Goes fs p r o t =
      append-Goes strtod grants p (b'n' ∷ []) _
        (literal-Goes (codes "null") b'n' fs p r o (refl, refl) refl)
        λ p1 s1.
          append-Goes strtod grants p1 (b'u' ∷ []) _
            (letter-Goes (codes "null") 1 b'u' fs p1 s1 refl refl)
            λ p2 s2.
              append-Goes strtod grants p2 (b'l' ∷ []) _
                (letter-Goes (codes "null") 2 b'l' fs p2 s2 refl refl)
                λ p3 s3. last_letter-Goes (codes "null") 3 b'l' fs p3 null s3 refl refl refl t

  true-Goes :
      (fs : List (Frame N)) (p : Parser N)
      → Ready between fs p
      → takes_value fs ≡ true
      → Takes fs
      → Goes strtod grants p (codes "true") (Attached fs (boolean true))
  unfolding is_ws start_value
  true-Goes fs p r o t =
      append-Goes strtod grants p (b't' ∷ []) _
        (literal-Goes (codes "true") b't' fs p r o (refl, refl) refl)
        λ p1 s1.
          append-Goes strtod grants p1 (b'r' ∷ []) _
            (letter-Goes (codes "true") 1 b'r' fs p1 s1 refl refl)
            λ p2 s2.
              append-Goes strtod grants p2 (b'u' ∷ []) _
                (letter-Goes (codes "true") 2 b'u' fs p2 s2 refl refl)
                λ p3 s3.
                  last_letter-Goes (codes "true") 3 b'e' fs p3 (boolean true) s3 refl refl refl t

  false-Goes :
      (fs : List (Frame N)) (p : Parser N)
      → Ready between fs p
      → takes_value fs ≡ true
      → Takes fs
      → Goes strtod grants p (codes "false") (Attached fs (boolean false))
  unfolding is_ws start_value
  false-Goes fs p r o t =
      append-Goes strtod grants p (b'f' ∷ []) _
        (literal-Goes (codes "false") b'f' fs p r o (refl, refl) refl)
        λ p1 s1.
          append-Goes strtod grants p1 (b'a' ∷ []) _
            (letter-Goes (codes "false") 1 b'a' fs p1 s1 refl refl)
            λ p2 s2.
              append-Goes strtod grants p2 (b'l' ∷ []) _
                (letter-Goes (codes "false") 2 b'l' fs p2 s2 refl refl)
                λ p3 s3.
                  append-Goes strtod grants p3 (b's' ∷ []) _
                    (letter-Goes (codes "false") 3 b's' fs p3 s3 refl refl)
                    λ p4 s4.
                      last_letter-Goes (codes "false") 4 b'e' fs p4 (boolean false) s4 refl refl
                        refl t

  pub boolean-Goes :
      (b : Bool) (fs : List (Frame N)) (p : Parser N)
      → Ready between fs p
      → takes_value fs ≡ true
      → Takes fs
      → Goes strtod grants p (if b then codes "true" else codes "false") (Attached fs (boolean b))
  boolean-Goes true fs p r o t = true-Goes fs p r o t
  boolean-Goes false fs p r o t = false-Goes fs p r o t

  -- The quote that opens a string, and the text behind it.
  opened-Goes :
      (s : Bytes) (fs : List (Frame N)) (p : Parser N)
      → Ready between fs p
      → takes_value fs ≡ true
      → Holds s
      → Goes strtod grants p (34 ∷ escaped_all s) (Inside in_string false fs s)
  unfolding is_ws start_value
  opened-Goes s fs p r o h =
      let q : Parser N = record p {
        parsing_key = false;
        state = in_string;
        text = [];
        pending_high_surrogate = false;
      } in
      let first : Goes strtod grants p (34 ∷ []) (Inside in_string false fs []) =
        step-Goes strtod grants p 34 between (ok, q) r.in_state
          (between_start strtod grants fs p 34 r o (refl, refl))
          (
            refl,
            record {
              in_state = refl;
              stack = r.stack;
              read = refl;
              for_key = refl;
              whole = refl;
              cap = (r.positive, r.sized);
            },
          ) in
      append-Goes strtod grants p (34 ∷ []) (escaped_all s) first
        λ p1 i. escaped_all-Goes grants plenty strtod s [] p1 i h

  pub string-Goes :
      (s : Bytes) (fs : List (Frame N)) (p : Parser N)
      → Ready between fs p
      → takes_value fs ≡ true
      → Takes fs
      → Holds s
      → Goes strtod grants p (quoted s) (Attached fs (string s))
  unfolding quoted step_in handle_string_byte finalize_string_value new_string
  string-Goes s fs p r o t h =
      append-Goes strtod grants p (34 ∷ escaped_all s) (34 ∷ []) (opened-Goes s fs p r o h) λ q i.
        let n : (length q.text == size_max) ≡ false = ground (arith, ap length i.read) in
        let e : new_string (grants arena) q.text ≡ some (string s) =
          simp
            (
              n,
              plenty.from_arena 32 (omega arith) (omega arith),
              plenty.from_arena (length q.text + 1) (omega arith)
                  (omega (arith, h, ap length i.read)),
            )
            (ap (λ x. some (string x)) i.read) in
        step-Goes strtod grants q 34 in_string
          (attach_new grants q (new_string (grants arena) q.text)) i.in_state
          (simp (i.whole, i.for_key) refl)
          (attach_new-Attached q fs (string s) (new_string (grants arena) q.text) e i.stack i.cap t)
