-- ===== src/Http/Body.antt =====
-- A body with a Content-Length: what is read and where it ends.
use oi_c.Prelude.{
  ℕ, zero, suc, ◌+◌, ◌-◌, ◌*◌, ◌≤◌, ◌≡◌, inl, inr, refl, Bool, true, false, List, [], ◌∷◌, ◌++◌,
  leb, ◌==◌, min, if◌then◌else◌, length, take, drop, take-length, drop-length, take-all, drop-all,
  Bytes, some, arith, ◌∙◌, Bool-cases, subst, append-nil,
}
use oi_c.Status.{ok}
use oi_c.Http.{content_body, done, Parser, Round, is_line_state, body_round, round, feed_loop, feed}

-- A parser in the body, with `n` bytes to come.
abbrev pub in_body : ℕ → Parser → Parser
in_body n p = record p { state = content_body; remaining = n; destroyed = false }

-- Where it is when `xs` has come.
abbrev pub body_read : ℕ → Bytes → Parser → Parser
body_read n xs p = record p {
  state = if leb n (length xs) then done else content_body;
  remaining = n - length xs;
  received = p.received ++ take n xs;
  destroyed = false;
}

module _ (grants : ℕ → Bool) (destroys : List ℕ → Bytes → Bool)
    (keeps : (heads : List ℕ) (received : Bytes) → destroys heads received ≡ false) where
  feed_loop-done :
      (f : ℕ) (p : Parser) (xs : Bytes)
      → feed_loop grants destroys (suc f) (record p { state = done }) xs
        ≡ some (ok, record p { state = done })
  unfolding feed_loop
  feed_loop-done f p [] = refl
  feed_loop-done f p (x ∷ xs) = refl

  feed_loop-nil : (f : ℕ) (p : Parser) → feed_loop grants destroys f p [] ≡ some (ok, p)
  unfolding feed_loop
  feed_loop-nil zero p = refl
  feed_loop-nil (suc f) p = refl

  -- The run that one call takes, as a round.
  body_run : ℕ → Parser → Bytes → Round
  body_run n p xs = record { status = ok; parser = body_read n xs p; rest = drop n xs }

  body_round_lem :
      (n : ℕ) (p : Parser) (xs : Bytes)
      → body_round grants destroys (in_body n p) xs ≡ body_run n p xs
  unfolding body_round body_run
  body_round_lem n p xs = elim (Bool-cases (leb n (length xs))) [
    | inl e ↦
        let all : min n (length xs) ≡ n = ground arith in
        let gone : n - n ≡ n - length xs = ground arith in
        let zero_left : (n - n == 0) ≡ true = ground arith in
        rw (keeps p.heads (p.received ++ take (min n (length xs)) xs), e, all, zero_left, gone) refl
    | inr e ↦
        let some_left : (n - length xs == 0) ≡ false = ground arith in
        let all : min n (length xs) ≡ length xs = ground arith in
        rw
          (
            keeps p.heads (p.received ++ take (min n (length xs)) xs),
            e,
            all,
            some_left,
            take-all n xs (ground arith),
            take-length xs,
            drop-all n xs (ground arith),
            drop-length xs,
          )
          refl
  ]

  feed_loop-step :
      (f n : ℕ) (p : Parser) (x : ℕ) (xs : Bytes)
      → feed_loop grants destroys (suc f) (in_body n p) (x ∷ xs)
        ≡ feed_loop grants destroys f (body_read n (x ∷ xs) p) (drop n (x ∷ xs))
  unfolding feed_loop round is_line_state body_run
  feed_loop-step f n p x xs = rw (body_round_lem n p (x ∷ xs)) refl

  feed_loop-rest :
      (f n : ℕ) (p : Parser) (xs : Bytes)
      → feed_loop grants destroys (suc f) (body_read n xs p) (drop n xs)
        ≡ some (ok, body_read n xs p)
  feed_loop-rest f n p xs = elim (Bool-cases (leb n (length xs))) [
    | inl e ↦ rw e (feed_loop-done f (body_read n xs p) (drop n xs))
    | inr e ↦ rw (drop-all n xs (ground arith)) (feed_loop-nil (suc f) (body_read n xs p))
  ]

  -- With callbacks that let the parser live and a positive number of bytes of a Content-Length
  -- body to come, a call delivers that many of its input bytes at most, in order, and says OI_OK;
  -- the parser is done once all have come and counts down before.
  pub feed-in_body :
      (n : ℕ) (p : Parser) (xs : Bytes)
      → 1 ≤ n
      → feed grants destroys (in_body n p) xs ≡ some (ok, body_read n xs p)
  unfolding feed
  feed-in_body zero p [] h = absurd (omega (arith, h))
  feed-in_body (suc n) p [] h =
      let more : leb (suc n) 0 ≡ false = ground arith in
      let same : suc n - 0 ≡ suc n = omega arith in
      rw (feed_loop-nil 3 (in_body (suc n) p), more, same, append-nil p.received) refl
  feed-in_body n p (x ∷ xs) h =
      subst
        (λ m.
          feed_loop grants destroys m (in_body n p) (x ∷ xs) ≡ some (ok, body_read n (x ∷ xs) p))
        (let e : suc (suc (3 * length xs + 4)) ≡ 3 * suc (length xs) + 3 = omega arith in e)
        (feed_loop-step (suc (3 * length xs + 4)) n p x xs
          ∙ feed_loop-rest (3 * length xs + 4) n p (x ∷ xs))
