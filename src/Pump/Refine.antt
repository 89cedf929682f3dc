-- ===== src/Pump/Refine.antt =====
-- The loop ends, and does what the machine does byte by byte.
use oi_c.Prelude.{
  ℕ, zero, suc, ◌+◌, ◌*◌, ◌≤◌, ◌<◌, ◌≡◌, inl, inr, refl, sym, ap, ◌∙◌, Bool, true, false, ◌&&◌, [],
  ◌∷◌, ◌++◌, if◌then◌else◌, length, drop, length-drop, Bytes, some, arith, append_assoc, append-nil,
  Bool-cases, subst,
}
use oi_c.Status.{ok, is_ok}
use oi_c.Bytebuf.{Bytebuf}
use oi_c.Bytebuf.Laws.{Appended, append-Appended}
use oi_c.Pump.{Machine, Fed, plain_run, put, round, feed_loop, feed, byte, transduce}
use oi_c.Pump.Laws.{Lawful}

put-Appended : (grants : ℕ → Bool) (out : Bytebuf) (e : Bytes) → Appended out e (put grants out e)
unfolding put
put-Appended grants out [] = inl (refl, sym (append-nil out.contents))
put-Appended grants out (x ∷ xs) = append-Appended grants out (x ∷ xs)

module _ {S : Type 0} (m : Machine S) (l : Lawful m) where
  -- Rounds that the input left may still take.
  measure : S → Bytes → ℕ
  measure s xs = 2 * length xs + (if m.idle s then 0 else 1)

  measure-round :
      (s : S) (x : ℕ) (xs : Bytes)
      → measure (round m s x xs).state (round m s x xs).rest < measure s (x ∷ xs)
  unfolding measure round plain_run
  measure-round s x xs =
      ground
        (arith, l.idle_once s x, l.again_idle s x, length-drop (length (plain_run m.plain xs)) xs)

  feed_loop_total :
      (grants : ℕ → Bool) (f : ℕ) (s : S) (xs : Bytes) (out : Bytebuf)
      → measure s xs ≤ f
      → (r : Fed S) × (feed_loop m grants f s xs out ≡ some r)
  unfolding feed_loop
  feed_loop_total grants zero s [] out h = (_, refl)
  feed_loop_total grants (suc f) s [] out h = (_, refl)
  feed_loop_total grants zero s (x ∷ xs) out h = absurd (unfold measure in omega arith)
  feed_loop_total grants (suc f) s (x ∷ xs) out h =
      let r = round m s x xs in
      let w = put grants out r.emits in
      elim (Bool-cases (is_ok w.0)) [
        | inl e ↦
            rw e (feed_loop_total grants f r.state r.rest w.1 (omega (arith, measure-round s x xs)))
        | inr e ↦ (record { status = w.0; state = r.state; out = w.1 }, rw e)
      ]

  -- A byte that the machine consumes.
  transduce_consumed :
      (s : S) (x : ℕ) (xs : Bytes)
      → (m.one s x).again ≡ false
      → transduce m s (x ∷ xs) ≡ (
        (transduce m (m.one s x).next xs).0,
        (m.one s x).emits ++ (transduce m (m.one s x).next xs).1,
      )
  unfolding transduce byte
  transduce_consumed s x xs h = rw h refl

  -- A byte that is given back.
  transduce_again :
      (s : S) (x : ℕ) (xs : Bytes)
      → (m.one s x).again ≡ true
      → transduce m s (x ∷ xs) ≡ (
        (transduce m (m.one s x).next (x ∷ xs)).0,
        (m.one s x).emits ++ (transduce m (m.one s x).next (x ∷ xs)).1,
      )
  unfolding transduce byte
  transduce_again s x xs h =
      let once = l.idle_once (m.one s x).next x (l.again_idle s x h) in rw (h, once, append_assoc)

  transduce_plain :
      (s : S) (x : ℕ) (xs : Bytes)
      → m.idle s ≡ true
      → m.plain x ≡ true
      → transduce m s (x ∷ xs) ≡ ((transduce m s xs).0, x ∷ (transduce m s xs).1)
  unfolding transduce byte
  transduce_plain s x xs i p = rw (l.plain_one s x i p) refl

  -- The bytes of a plain run go through one by one.
  transduce-plain_run :
      (s : S) (xs : Bytes)
      → m.idle s ≡ true
      → transduce m s xs ≡ (
        (transduce m s (drop (length (plain_run m.plain xs)) xs)).0,
        plain_run m.plain xs ++ (transduce m s (drop (length (plain_run m.plain xs)) xs)).1,
      )
  unfolding plain_run
  transduce-plain_run s [] i = refl
  transduce-plain_run s (x ∷ xs) i = elim (Bool-cases (m.plain x)) [
    | inl p ↦ rw p (
        transduce_plain s x xs i p
        ∙ ap (λ (t : S × Bytes). (t.0, x ∷ t.1)) (transduce-plain_run s xs i))
    | inr p ↦ rw p refl
  ]

  -- A round does a part of what the specification does.
  transduce-round :
      (s : S) (x : ℕ) (xs : Bytes)
      → transduce m s (x ∷ xs) ≡ (
        (transduce m (round m s x xs).state (round m s x xs).rest).0,
        (round m s x xs).emits ++ (transduce m (round m s x xs).state (round m s x xs).rest).1,
      )
  unfolding round
  transduce-round s x xs = elim (Bool-cases (m.idle s && m.plain x)) [
    | inl q ↦ rw q (transduce-plain_run s (x ∷ xs) (ground arith))
    | inr q ↦ rw q (elim (Bool-cases (m.one s x).again) [
      | inl g ↦ rw g (transduce_again s x xs g)
      | inr g ↦ rw g (transduce_consumed s x xs g)
    ])
  ]

  -- A call that says OI_OK has done what the specification does.
  feed_loop-transduce :
      (grants : ℕ → Bool) (f : ℕ) (s : S) (xs : Bytes) (out : Bytebuf) (r : Fed S)
      → feed_loop m grants f s xs out ≡ some r
      → r.status ≡ ok
      → (r.state ≡ (transduce m s xs).0) × (r.out.contents ≡ out.contents ++ (transduce m s xs).1)
  unfolding feed_loop
  feed_loop-transduce grants zero s [] out r h k =
      unfold transduce in ground (arith, append-nil out.contents)
  feed_loop-transduce grants (suc f) s [] out r h k =
      unfold transduce in ground (arith, append-nil out.contents)
  feed_loop-transduce grants zero s (x ∷ xs) out r h k = cc
  feed_loop-transduce grants (suc f) s (x ∷ xs) out r h k =
      let o = round m s x xs in
      let w = put grants out o.emits in
      ground (
        arith,
        transduce-round s x xs,
        put-Appended grants out o.emits,
        feed_loop-transduce grants f o.state o.rest w.1 r,
        append_assoc out.contents o.emits (transduce m o.state o.rest).1,
      )

  -- For a lawful machine every call of the shared loop has a result: the loop ends within its
  -- fuel.
  pub feed_total :
      (grants : ℕ → Bool) (s : S) (xs : Bytes) (out : Bytebuf)
      → (r : Fed S) × (feed m grants s xs out ≡ some r)
  unfolding feed
  feed_total grants s xs out = feed_loop_total grants _ s xs out (unfold measure in ground arith)

  -- For a lawful machine, a call of the shared loop that says OI_OK leaves the state and has
  -- appended the bytes that feeding its input byte by byte leaves and emits: the runs of plain
  -- bytes that go out at once make no difference.
  pub feed-transduce :
      (grants : ℕ → Bool) (s : S) (xs : Bytes) (out : Bytebuf) (r : Fed S)
      → feed m grants s xs out ≡ some r
      → r.status ≡ ok
      → (r.state ≡ (transduce m s xs).0) × (r.out.contents ≡ out.contents ++ (transduce m s xs).1)
  unfolding feed
  feed-transduce grants s xs out r = feed_loop-transduce grants _ s xs out r

  -- The specification does not see how its input is cut.
  pub transduce-append :
      (s : S) (xs ys : Bytes)
      → transduce m s (xs ++ ys) ≡ (
        (transduce m (transduce m s xs).0 ys).0,
        (transduce m s xs).1 ++ (transduce m (transduce m s xs).0 ys).1,
      )
  unfolding transduce
  transduce-append s [] ys = refl
  transduce-append s (x ∷ xs) ys = rw (transduce-append (byte m s x).0 xs ys, append_assoc)

  -- What all appended pieces have, and concatenation keeps, the output has whatever the status.
  module _ {ℓ} (P : Bytes → Type ℓ) (keep : (xs ys : Bytes) → P xs → P ys → P (xs ++ ys))
      (pieces : (s : S) (x : ℕ) (xs : Bytes) → P (round m s x xs).emits) where
    put_keeps :
        (grants : ℕ → Bool) (out : Bytebuf) (e : Bytes)
        → P out.contents
        → P e
        → P (put grants out e).1.contents
    put_keeps grants out e p q = elim (put-Appended grants out e) [
      | inl (_, a) ↦ subst P (sym a) (keep out.contents e p q)
      | inr (_, a) ↦ subst P (ap (λ (b : Bytebuf). b.contents) (sym a)) p
    ]

    feed_loop_keeps :
        (grants : ℕ → Bool) (f : ℕ) (s : S) (xs : Bytes) (out : Bytebuf) (r : Fed S)
        → feed_loop m grants f s xs out ≡ some r
        → P out.contents
        → P r.out.contents
    unfolding feed_loop
    feed_loop_keeps grants zero s [] out r h p =
        let e : out.contents ≡ r.out.contents = ground arith in subst P e p
    feed_loop_keeps grants (suc f) s [] out r h p =
        let e : out.contents ≡ r.out.contents = ground arith in subst P e p
    feed_loop_keeps grants zero s (x ∷ xs) out r h p = cc
    feed_loop_keeps grants (suc f) s (x ∷ xs) out r h p =
        let o = round m s x xs in
        let w = put grants out o.emits in
        let q = put_keeps grants out o.emits p (pieces s x xs) in
        elim (Bool-cases (is_ok w.0)) [
          | inl e ↦ feed_loop_keeps grants f o.state o.rest w.1 r (rw e at h) q
          | inr e ↦ let e' : w.1.contents ≡ r.out.contents = ground arith in subst P e' q
        ]

    pub feed_keeps :
        (grants : ℕ → Bool) (s : S) (xs : Bytes) (out : Bytebuf) (r : Fed S)
        → feed m grants s xs out ≡ some r
        → P out.contents
        → P r.out.contents
    unfolding feed
    feed_keeps grants s xs out r = feed_loop_keeps grants _ s xs out r

  -- An invariant of `feed_one` is one of the loop, whatever the status.
  module _ (Inv : S → Type 0) (keep : (s : S) (c : ℕ) → Inv s → Inv (m.one s c).next) where
    round-Inv : (s : S) (x : ℕ) (xs : Bytes) → Inv s → Inv (round m s x xs).state
    unfolding round
    round-Inv s x xs i = elim (Bool-cases (m.idle s && m.plain x)) [
      | inl q ↦ rw q i
      | inr q ↦ rw q (keep s x i)
    ]

    feed_loop-Inv :
        (grants : ℕ → Bool) (f : ℕ) (s : S) (xs : Bytes) (out : Bytebuf) (r : Fed S)
        → feed_loop m grants f s xs out ≡ some r
        → Inv s
        → Inv r.state
    unfolding feed_loop
    feed_loop-Inv grants zero s [] out r h p = let e : s ≡ r.state = ground arith in subst Inv e p
    feed_loop-Inv grants (suc f) s [] out r h p =
        let e : s ≡ r.state = ground arith in subst Inv e p
    feed_loop-Inv grants zero s (x ∷ xs) out r h p = cc
    feed_loop-Inv grants (suc f) s (x ∷ xs) out r h p =
        let o = round m s x xs in
        let w = put grants out o.emits in
        let q = round-Inv s x xs p in
        elim (Bool-cases (is_ok w.0)) [
          | inl e ↦ feed_loop-Inv grants f o.state o.rest w.1 r (rw e at h) q
          | inr e ↦ let e' : o.state ≡ r.state = ground arith in subst Inv e' q
        ]

    pub feed_keeps-Inv :
        (grants : ℕ → Bool) (s : S) (xs : Bytes) (out : Bytebuf) (r : Fed S)
        → feed m grants s xs out ≡ some r
        → Inv s
        → Inv r.state
    unfolding feed
    feed_keeps-Inv grants s xs out r = feed_loop-Inv grants _ s xs out r
