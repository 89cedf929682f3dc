-- ===== src/Json/Feed.antt =====
-- src/json_parse.c, `oi_json_parser_feed`: its loop ends, and a document may be cut anywhere.
use oi_c.Prelude.{
  ℕ, zero, suc, ◌*◌, ◌≤◌, ◌≡◌, refl, ◌⊎◌, inl, inr, Bool, true, false, not, ◌||◌, List, [], ◌∷◌,
  ◌++◌, if◌then◌else◌, length, Bytes, Bool-cases, Option, none, some, arith,
}
use oi_c.Json.Numbers.{finalize_number, handle_number_byte, is_number_continuation}
use oi_c.Json.Parser.{step, step_in, feed_loop, feed}
use oi_c.Json.State.{
  Memory, arena, State, between, in_number, done, Frame, Parser, attach_to, attach_completed,
  attached, extended, Container,
}
use oi_c.Json.Strings.{attach_new}
use oi_c.Json.Value.{Value, number, new_scalar}
use oi_c.Status.{Status, ok, is_ok}

module _ {N : Type 0} (strtod : Bytes → N × ℕ) (grants : Memory → ℕ → Bool) where
  -- What one byte does: a step, and a second one where the first has left the byte.
  unfoldable pub byte_step : Parser N → ℕ → Status × Parser N
  byte_step p c =
      let r = step strtod grants p c in
      let s = step strtod grants r.1 c in if r.2 || not (is_ok r.0) then (r.0, r.1) else (s.0, s.1)

  unfoldable pub feed_bytes : Parser N → Bytes → Status × Parser N
  feed_bytes p [] = (ok, p)
  feed_bytes p (c ∷ cs) =
      let r = byte_step p c in let rest = feed_bytes r.1 cs in if is_ok r.0 then rest else r

  abbrev pub Settled : Parser N → Type 0
  Settled q = (q.state ≡ between) ⊎ (q.state ≡ done)

  attached-Settled :
      (p : Parser N) (f : Frame N) (fs : List (Frame N)) (o : Option (Container N))
      → is_ok (attached p f fs o).0 ≡ true
      → Settled (attached p f fs o).1
  attached-Settled p f fs none h = cc
  attached-Settled p f fs (some c) h = inl refl

  attach_to-Settled :
      (p : Parser N) (fs : List (Frame N)) (v : Value N)
      → is_ok (attach_to grants p fs v).0 ≡ true
      → Settled (attach_to grants p fs v).1
  unfolding attach_to
  attach_to-Settled p [] v h = inr refl
  attach_to-Settled p (f ∷ fs) v h =
      attached-Settled p f fs (extended grants f.container f.pending_key v) h

  attach_new-Settled :
      (p : Parser N) (o : Option (Value N))
      → is_ok (attach_new grants p o).0 ≡ true
      → Settled (attach_new grants p o).1
  unfolding attach_completed
  attach_new-Settled p none h = cc
  attach_new-Settled p (some v) h = attach_to-Settled p p.frames v h

  finalize_number-Settled :
      (p : Parser N)
      → is_ok (finalize_number strtod grants p).0 ≡ true
      → Settled (finalize_number strtod grants p).1
  unfolding finalize_number
  finalize_number-Settled p h =
      ground (arith, attach_new-Settled p (new_scalar (grants arena) (number (strtod p.digits).0)))

  -- A byte is left only behind a number, and then the next step takes it.
  abbrev Taken : Status × Parser N × Bool → Type 0
  Taken r = (r.2 ≡ true) ⊎ ((is_ok r.0 ≡ true → Settled r.1) × (r.2 ≡ false))

  step_in-Taken : (s : State) (p : Parser N) (c : ℕ) → Taken (step_in strtod grants s p c)
  unfolding step_in handle_number_byte
  step_in-Taken in_number p c = elim (Bool-cases (is_number_continuation c)) [
    | inl e ↦ inl (ground arith)
    | inr e ↦ inr ((rw e (finalize_number-Settled p)), (rw e refl))
  ]
  step_in-Taken _ p c = inl refl

  pub step-Settled : (q : Parser N) (c : ℕ) → Settled q → (step strtod grants q c).2 ≡ true
  unfolding step step_in
  step-Settled q c (inl e) = rw e refl
  step-Settled q c (inr e) = rw e refl

  byte_step-taken :
      (p : Parser N) (c : ℕ)
      → let r = step strtod grants p c in
        (r.2 ≡ true) ⊎ (is_ok r.0 ≡ true → (step strtod grants r.1 c).2 ≡ true)
  unfolding step
  byte_step-taken p c = elim (step_in-Taken p.state p c) [
    | inl e ↦ inl e
    | inr e ↦ inr (λ h. step-Settled (step_in strtod grants p.state p c).1 c (e.0 h))
  ]

  -- Two rounds of fuel for a byte are enough.
  feed_loop-feed_bytes :
      (xs : Bytes) (p : Parser N) (f : ℕ)
      → 2 * length xs ≤ f
      → feed_loop strtod grants f p xs ≡ some (feed_bytes p xs)
  unfolding feed_loop feed_bytes byte_step
  feed_loop-feed_bytes [] p zero h = refl
  feed_loop-feed_bytes [] p (suc f) h = refl
  feed_loop-feed_bytes (c ∷ cs) p zero h = absurd (omega arith)
  feed_loop-feed_bytes (c ∷ cs) p (suc zero) h = absurd (omega arith)
  feed_loop-feed_bytes (c ∷ cs) p (suc (suc f)) h =
      let r = step strtod grants p c in
      let s = step strtod grants r.1 c in
      ground (
        arith,
        byte_step-taken p c,
        feed_loop-feed_bytes cs r.1 (suc f) (omega arith),
        feed_loop-feed_bytes cs s.1 f (omega arith),
      )

  -- The loop of the JSON feed ends within two rounds a byte, and does what its bytes do one by
  -- one: a step, and a second one where the first has left the byte.
  pub feed-feed_bytes :
      (p : Parser N) (xs : Bytes) → feed strtod grants p xs ≡ some (feed_bytes p xs)
  unfolding feed
  feed-feed_bytes p xs = feed_loop-feed_bytes xs p (2 * length xs) (omega arith)

  -- What a second call does behind the first.
  unfoldable pub feed_more : Status × Parser N → Bytes → Status × Parser N
  feed_more r ys = let rest = feed_bytes r.1 ys in if is_ok r.0 then rest else r

  pub feed_bytes-append :
      (xs ys : Bytes) (p : Parser N) → feed_bytes p (xs ++ ys) ≡ feed_more (feed_bytes p xs) ys
  unfolding feed_bytes feed_more
  feed_bytes-append [] ys p = refl
  feed_bytes-append (c ∷ cs) ys p = ground (arith, feed_bytes-append cs ys (byte_step p c).1)

  -- A call of the feed behind another, which stands for the first where that failed.
  abbrev pub feed_again : Option (Status × Parser N) → Bytes → Option (Status × Parser N)
  feed_again none ys = none
  feed_again (some r) ys =
      let rest = feed strtod grants r.1 ys in if is_ok r.0 then rest else some r

  -- However a text is cut in two, feeding the parts one after the other, the second if the first
  -- said OI_OK, ends in the same status and the same parser as feeding the whole.
  pub feed-append :
      (xs ys : Bytes) (p : Parser N)
      → feed strtod grants p (xs ++ ys) ≡ feed_again (feed strtod grants p xs) ys
  unfolding feed_more
  feed-append xs ys p =
      let r = feed_bytes p xs in
      rw
        (
          feed-feed_bytes p (xs ++ ys),
          feed-feed_bytes p xs,
          feed-feed_bytes r.1 ys,
          feed_bytes-append xs ys p,
        )
        (some_if (is_ok r.0) _ _)
    where
      some_if :
          (t : Bool) (a b : Status × Parser N)
          → some (if t then a else b) ≡ (if t then some a else some b)
      some_if true a b = refl
      some_if false a b = refl
