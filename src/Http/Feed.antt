-- ===== src/Http/Feed.antt =====
-- The feed always ends.
use oi_c.Prelude.{
  ℕ, zero, suc, ◌+◌, ◌-◌, ◌*◌, ◌≤◌, ◌<◌, ◌≡◌, ◌⊎◌, inl, inr, refl, Bool, true, false, List, [], ◌∷◌,
  ◌++◌, ◌==◌, min, if◌then◌else◌, length, take, length-drop, Bytes, Option, some, arith, Bool-cases,
}
use oi_c.Status.{Status, ok, is_ok}
use oi_c.Http.{
  resume, State, chunk_data, content_body, done, error, Parser, is_line_state, behind, line_round,
  body_round, round, feed_loop, feed,
}

-- The rounds that a state may take without a byte.
abbrev rank : State → ℕ
rank done = 0
rank error = 0
rank chunk_data = 2
rank content_body = 2
rank _ = 1

rank-le : (s : State) → rank s ≤ 2
rank-le done = omega arith
rank-le _ = omega arith

measure : State → Bytes → ℕ
measure s xs = 3 * length xs + rank s

-- What a run of body bytes leaves, in numbers.
body_count :
    (r l left k s : ℕ)
    → left ≡ suc l - min r (suc l)
    → k ≤ (if r - min r (suc l) == 0 then 1 else 2)
    → s ≡ 2
    → 3 * left + k < 3 * suc l + s
body_count r l left k s e h hs = ground arith

pick {ℓ} :
    {R : Type ℓ} (d k : Bool) (a b : R) (o : Option R)
    → d ≡ true ⊎ ((r : R) × (o ≡ some r))
    → (r : R) × ((if d then some a else if k then o else some b) ≡ some r)
pick true k a b o h = (a, refl)
pick false false a b o h = (b, refl)
pick false true a b o (inl h) = absurd (ground arith)
pick false true a b o (inr h) = h

body_rank : (s : State) → 1 ≤ rank s → is_line_state s ≡ false → rank s ≡ 2
unfolding is_line_state
body_rank done h e = absurd (omega (arith, h))
body_rank error h e = absurd (omega (arith, h))
body_rank chunk_data h e = omega arith
body_rank content_body h e = omega arith
body_rank _ h e = ground arith

resume-some {ℓ} :
    {R : Type ℓ} (s : State) (a b : R) (on : Option R)
    → (1 ≤ rank s → (r : R) × (on ≡ some r))
    → (r : R) × (resume s (some a) (some b) on ≡ some r)
resume-some error a b on h = (a, refl)
resume-some done a b on h = (b, refl)
resume-some _ a b on h = h (omega arith)

module _ (grants : ℕ → Bool) (destroys : List ℕ → Bytes → Bool) where
  measure_pos : (s : State) (x : ℕ) (xs : Bytes) → 1 ≤ measure s (x ∷ xs)
  unfolding measure
  measure_pos s x xs = omega arith

  measure-line_round :
      (p : Parser) (x : ℕ) (xs : Bytes)
      → measure
          (line_round grants destroys p x xs).parser.state
          (line_round grants destroys p x xs).rest
        < measure p.state (x ∷ xs)
  unfolding measure line_round
  measure-line_round p x xs =
      omega (arith, rank-le (line_round grants destroys p x xs).parser.state)

  rank-behind : (s : State) → rank (behind s) ≤ 1
  rank-behind done = omega arith
  rank-behind _ = omega arith

  stay_rank :
      (s : State) (q : Bool) → rank s ≡ 2 → rank (if q then behind s else s) ≤ (if q then 1 else 2)
  stay_rank s true h = rank-behind s
  stay_rank s false h = omega (arith, h)

  -- A run of body bytes takes a byte, or leaves the state.
  body_round-measure :
      (p : Parser) (x : ℕ) (xs : Bytes)
      → rank p.state ≡ 2
      → (body_round grants destroys p (x ∷ xs)).parser.destroyed ≡ true
        ⊎ (measure
              (body_round grants destroys p (x ∷ xs)).parser.state
              (body_round grants destroys p (x ∷ xs)).rest
            < measure p.state (x ∷ xs))
  unfolding measure body_round
  body_round-measure p x xs h =
      elim (Bool-cases
        (destroys p.heads (p.received ++ take (min p.remaining (suc (length xs))) (x ∷ xs)))) [
          | inl e ↦ inl (rw (body_round, e) refl)
          | inr e ↦ inr (
              rw (body_round, e)
                (body_count p.remaining (length xs) _ _ _
                  (length-drop (min p.remaining (suc (length xs))) (x ∷ xs))
                  (stay_rank p.state (p.remaining - min p.remaining (suc (length xs)) == 0) h) h))
        ]

  round-measure :
      (p : Parser) (x : ℕ) (xs : Bytes)
      → 1 ≤ rank p.state
      → (round grants destroys p x xs).parser.destroyed ≡ true
        ⊎ (measure (round grants destroys p x xs).parser.state (round grants destroys p x xs).rest
            < measure p.state (x ∷ xs))
  unfolding round
  round-measure p x xs h = elim (Bool-cases (is_line_state p.state)) [
    | inl e ↦ rw e (inr (measure-line_round p x xs))
    | inr e ↦ rw e (body_round-measure p x xs (body_rank p.state h e))
  ]

  -- That fuel `f` is enough.
  Enough : ℕ → Type 0
  Enough f =
      (p : Parser) (xs : Bytes)
      → measure p.state xs ≤ f
      → (r : Status × Parser) × (feed_loop grants destroys f p xs ≡ some r)

  continues :
      (f : ℕ)
      → Enough f
      → (p : Parser) (x : ℕ) (xs : Bytes) → 1 ≤ rank p.state
      → measure p.state (x ∷ xs) ≤ suc f
      → (r : Status × Parser) × ((if (round grants destroys p x xs).parser.destroyed
            then some (ok, (round grants destroys p x xs).parser)
            else if is_ok (round grants destroys p x xs).status
            then feed_loop grants destroys f
                (round grants destroys p x xs).parser
                (round grants destroys p x xs).rest
            else some
                ((round grants destroys p x xs).status, (round grants destroys p x xs).parser))
          ≡ some r)
  unfolding Enough
  continues f ih p x xs h m = pick _ _ _ _ _ (elim (round-measure p x xs h) [
    | inl e ↦ inl e
    | inr e ↦ inr (
        ih (round grants destroys p x xs).parser (round grants destroys p x xs).rest
          (omega (arith, e, m)))
  ])

  feed_loop_total : (f : ℕ) → Enough f
  unfolding Enough feed_loop
  feed_loop_total zero p [] h = ((ok, p), refl)
  feed_loop_total (suc f) p [] h = ((ok, p), refl)
  feed_loop_total zero p (x ∷ xs) h = absurd (omega (arith, measure_pos p.state x xs, h))
  feed_loop_total (suc f) p (x ∷ xs) h =
      resume-some p.state _ _ _ (λ k. continues f (feed_loop_total f) p x xs k h)

  -- Whatever the parser, the bytes, the allocator and the callbacks, every call of the HTTP feed
  -- has a result: its loop ends within the fuel of three rounds a byte and three more.
  pub feed_ends :
      (p : Parser) (xs : Bytes) → (r : Status × Parser) × (feed grants destroys p xs ≡ some r)
  unfolding feed measure
  feed_ends p xs =
      unfold Enough in feed_loop_total (3 * length xs + 3) p xs (omega (arith, rank-le p.state))
