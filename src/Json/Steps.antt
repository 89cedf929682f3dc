-- ===== src/Json/Steps.antt =====
-- src/json_parse.c: runs of the parser, from one state to another.
use oi_c.Prelude.{
  ℕ, ◌≤◌, ◌<◌, ◌≡◌, refl, sym, ap, ◌∙◌, subst, Bool, true, false, List, [], ◌∷◌, ◌++◌, Bytes,
  size_max, some,
}
use oi_c.Json.Feed.{byte_step, feed_bytes, feed_more, feed_bytes-append, Settled, step-Settled}
use oi_c.Json.Numbers.{finalize_number, handle_number_byte, is_number_continuation}
use oi_c.Json.Parser.{step, step_in}
use oi_c.Json.State.{
  Memory, State, between, in_number, done, Container, array_of, object_of, Frame, comma_or_close,
  Parser, key_left,
}
use oi_c.Json.Value.{Value, push, append}
use oi_c.Status.{Status, ok}

module _ {N : Type 0} where
  -- The parser in a state, with the containers that are open.
  pub record Ready (s : State) (fs : List (Frame N)) (p : Parser N) : Type 0 where
    pub in_state : p.state ≡ s
    pub stack : p.frames ≡ fs
    pub positive : 0 < p.str_cap
    pub sized : p.str_cap ≤ size_max

  -- A container with one value more.
  abbrev pub extend : Container N → Bytes → Value N → Container N
  extend (array_of items) key v = array_of (push items v)
  extend (object_of members) key v = object_of (append members key v)

  abbrev pub extend_frame : Frame N → Value N → Frame N
  extend_frame f v = record {
    container = extend f.container f.pending_key v;
    pending_key = key_left f.container f.pending_key;
    expect = comma_or_close;
  }

  -- A value has been attached where `fs` was open: to the innermost container, or as the root.
  abbrev pub Attached : List (Frame N) → Value N → Parser N → Type 0
  Attached [] v p = Ready done [] p × (p.root ≡ some v)
  Attached (f ∷ fs) v p = Ready between (extend_frame f v ∷ fs) p

module _ {N : Type 0} (strtod : Bytes → N × ℕ) (grants : Memory → ℕ → Bool) where
  -- The bytes are taken with OI_OK, and lead to a parser with `Q`.
  pub record Goes (p : Parser N) (xs : Bytes) (Q : Parser N → Type 0) : Type 0 where
    pub fine : (feed_bytes strtod grants p xs).0 ≡ ok
    pub there : Q (feed_bytes strtod grants p xs).1

  pub none-Goes : {Q : Parser N → Type 0} (p : Parser N) → Q p → Goes p [] Q
  unfolding feed_bytes
  none-Goes p q = record { fine = refl; there = q }

  pub onward :
      {p : Parser N} {xs : Bytes} {Q R : Parser N → Type 0}
      → Goes p xs Q
      → ((q : Parser N) → Q q → R q)
      → Goes p xs R
  onward {p} {xs} g f = record {
    fine = g.fine;
    there = f (feed_bytes strtod grants p xs).1 g.there;
  }

  pub append-Goes :
      {Q R : Parser N → Type 0} (p : Parser N) (xs ys : Bytes)
      → Goes p xs Q
      → ((q : Parser N) → Q q → Goes q ys R)
      → Goes p (xs ++ ys) R
  unfolding feed_more
  append-Goes {R = R} p xs ys a f =
      let h = f (feed_bytes strtod grants p xs).1 a.there in
      record {
        fine = rw (feed_bytes-append strtod grants xs ys p, a.fine) h.fine;
        there = rw (feed_bytes-append strtod grants xs ys p, a.fine) h.there;
      }

  number_step :
      (p : Parser N) (c : ℕ)
      → p.state ≡ in_number
      → is_number_continuation c ≡ false
      → step strtod grants p c
        ≡ ((finalize_number strtod grants p).0, (finalize_number strtod grants p).1, false)
  unfolding step step_in handle_number_byte
  number_step p c e n = simp (e, n) refl

  -- A byte behind a number does what it does behind the number's value.
  pending_step :
      (p : Parser N) (c : ℕ)
      → p.state ≡ in_number
      → (finalize_number strtod grants p).0 ≡ ok
      → is_number_continuation c ≡ false
      → (step strtod grants (finalize_number strtod grants p).1 c).2 ≡ true
      → feed_bytes strtod grants p (c ∷ [])
        ≡ feed_bytes strtod grants (finalize_number strtod grants p).1 (c ∷ [])
  unfolding feed_bytes byte_step
  pending_step p c e r n t =
      let a : byte_step strtod grants p c
          ≡ byte_step strtod grants (finalize_number strtod grants p).1 c =
        simp (number_step p c e n, r, t) refl in
      simp a refl

  -- One byte, by one step.
  pub one-Goes :
      {Q : Parser N → Type 0} (p : Parser N) (c : ℕ) (s : State)
      → p.state ≡ s
      → let r = step_in strtod grants s p c in r.0 ≡ ok → r.2 ≡ true → Q r.1 → Goes p (c ∷ []) Q
  unfolding feed_bytes byte_step step
  one-Goes p c s e a b q = record { fine = simp (e, a, b) refl; there = simp (e, a, b) q }

  -- The same, by an equation for the step.
  pub step-Goes :
      {Q : Parser N → Type 0} (p : Parser N) (c : ℕ) (s : State) (r : Status × Parser N)
      → p.state ≡ s
      → step_in strtod grants s p c ≡ (r.0, r.1, true)
      → (r.0 ≡ ok) × Q r.1
      → Goes p (c ∷ []) Q
  step-Goes {Q = Q} p c s r e h q =
      one-Goes p c s e (ap (λ x. x.0) h ∙ q.0) (ap (λ x. x.2) h)
        (subst Q (sym (ap (λ x. x.1) h)) q.1)

  -- At `Q`, or with a number that the next byte completes.
  pub data Rests (Q : Parser N → Type 0) (p : Parser N) : Type 0 where
    settled : Q p → Rests Q p
    pending :
        p.state ≡ in_number
        → (finalize_number strtod grants p).0 ≡ ok
        → Q (finalize_number strtod grants p).1
        → Rests Q p

  pub rests-Goes :
      {Q R : Parser N → Type 0} (p : Parser N) (c : ℕ)
      → Rests Q p
      → is_number_continuation c ≡ false
      → ((q : Parser N) → Q q → Settled strtod grants q)
      → ((q : Parser N) → Q q → Goes q (c ∷ []) R)
      → Goes p (c ∷ []) R
  rests-Goes p c (settled q) n s f = f p q
  rests-Goes p c (pending e r q) n s f =
      let d = finalize_number strtod grants p in
      let same = pending_step p c e r n (step-Settled strtod grants d.1 c (s d.1 q)) in
      let h = f d.1 q in record { fine = rw same h.fine; there = rw same h.there }
