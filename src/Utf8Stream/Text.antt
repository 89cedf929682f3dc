-- ===== src/Utf8Stream/Text.antt =====
-- The output of the stream is well-formed, and well-formed input passes unchanged.
use oi_c.Prelude.{
  ℕ, ◌≤◌, ◌<◌, ◌≡◌, ◌⊎◌, inl, inr, refl, sym, ap, ◌∙◌, subst, Bool, true, [], ◌∷◌, ◌++◌, ltb, ◌==◌,
  length, take, take-length, Bytes, some, arith, Bool-cases, ltb→lt,
}
use oi_c.Status.{val, Result-cases}
use oi_c.Utf8.{lead_length, sequence_length, is_continuation}
use oi_c.Utf8.Encode.{emit_utf8}
use oi_c.Utf8.Sound.{sequence_length_sound, value_of}
use oi_c.Utf8.Text.{IsText, IsText-nil, IsText-append, IsText-emit_utf8}
use oi_c.Bytebuf.{Bytebuf}
use oi_c.Bytebuf.Laws.{append-Appended}
use oi_c.Pump.{Fed, round, plain_run}
use oi_c.Pump.Refine.{feed_keeps, feed_keeps-Inv}
use oi_c.Utf8Stream.{
  Utf8Stream, replacement, flushed, feed_one, feed_lead, feed_tail, utf8_machine, none_pending,
  feed, finish,
}
use oi_c.Utf8Stream.Laws.{utf8-Lawful}

IsText-ascii : (c : ℕ) → c < 0x80 → IsText (c ∷ [])
unfolding emit_utf8
IsText-ascii c h = subst IsText (ground arith) (IsText-emit_utf8 c (inl (omega arith)))

IsText-replacement : IsText replacement
unfolding emit_utf8
IsText-replacement = IsText-emit_utf8 0xfffd (inr (omega arith))

IsText-flushed : (p : Bytes) → IsText (flushed p)
unfolding flushed
IsText-flushed p = elim (Result-cases (sequence_length p)) [
  | inr (e, h) ↦ rw (h, flushed) IsText-replacement
  | inl (n, h) ↦ elim (Bool-cases (n == length p)) [
    | inr ne ↦ rw (h, flushed, ne) IsText-replacement
    | inl eq ↦
        rw (h, flushed, eq)
          (let e = sequence_length_sound p n h in
            let n' : n ≡ length p = ground arith in
            subst IsText (sym (sym (take-length p) ∙ ap (λ k. take k p) (sym n') ∙ e.bytes))
              (IsText-emit_utf8 (value_of p n) e.scalar))
  ]
]

lead_length_1 : (c : ℕ) → lead_length c ≡ val 1 → c < 0x80
unfolding lead_length
lead_length_1 c h = ground arith

IsText-feed_lead : (s : Utf8Stream) (c : ℕ) → IsText (feed_lead s c).emits
unfolding feed_lead
IsText-feed_lead s c = elim (Result-cases (lead_length c)) [
  | inr (e, h) ↦ rw (h, feed_lead) IsText-replacement
  | inl (n, h) ↦ elim (Bool-cases (n == 1)) [
    | inr ne ↦ rw (h, feed_lead, ne) IsText-nil
    | inl eq ↦ rw (h, feed_lead, eq) (IsText-ascii c (lead_length_1 c (h ∙ ap val (ground arith))))
  ]
]

IsText-feed_tail : (s : Utf8Stream) (c : ℕ) → IsText (feed_tail s c).emits
unfolding feed_tail
IsText-feed_tail s c = elim (Bool-cases (is_continuation c)) [
  | inr h ↦ rw h IsText-replacement
  | inl h ↦ elim (Bool-cases (ltb (length (s.pending ++ (c ∷ []))) s.expected_len)) [
    | inl l ↦ rw (h, l) IsText-nil
    | inr l ↦ rw (h, l) (IsText-flushed (s.pending ++ (c ∷ [])))
  ]
]

IsText-plain_run : (xs : Bytes) → IsText (plain_run (λ c. ltb c 0x80) xs)
unfolding plain_run
IsText-plain_run [] = IsText-nil
IsText-plain_run (x ∷ xs) = elim (Bool-cases (ltb x 0x80)) [
  | inl h ↦ rw h (IsText-append (x ∷ []) _ (IsText-ascii x (ltb→lt x 0x80 h)) (IsText-plain_run xs))
  | inr h ↦ rw h IsText-nil
]

IsText-round : (s : Utf8Stream) (x : ℕ) (xs : Bytes) → IsText (round utf8_machine s x xs).emits
unfolding round feed_one
IsText-round s x xs = elim (Bool-cases (none_pending s.pending)) [
  | inr p ↦ rw p (IsText-feed_tail s x)
  | inl p ↦ elim (Bool-cases (ltb x 0x80)) [
    | inl q ↦ rw (p, q) (IsText-plain_run (x ∷ xs))
    | inr q ↦ rw (p, q) (IsText-feed_lead s x)
  ]
]

-- Whatever the input bytes and the state of the stream, a call leaves an output that is well-
-- formed UTF-8 if the output was well formed before.
pub feed-IsText :
    (grants : ℕ → Bool) (s : Utf8Stream) (xs : Bytes) (out : Bytebuf) (r : Fed Utf8Stream)
    → feed grants s xs out ≡ some r
    → IsText out.contents
    → IsText r.out.contents
unfolding feed
feed-IsText = feed_keeps utf8_machine utf8-Lawful IsText IsText-append IsText-round

pub finish-IsText :
    (grants : ℕ → Bool) (s : Utf8Stream) (out : Bytebuf)
    → IsText out.contents
    → IsText (finish grants s out).out.contents
unfolding finish
finish-IsText grants s out t = elim (Bool-cases (none_pending s.pending)) [
  | inl p ↦ rw p t
  | inr p ↦ rw p (elim (append-Appended grants out replacement) [
    | inl (_, e) ↦ subst IsText (sym e) (IsText-append _ _ t IsText-replacement)
    | inr (_, e) ↦ subst IsText (ap (λ (b : Bytebuf). b.contents) (sym e)) t
  ])
]

-- The bytes held are fewer than the announced length, which is 4 at most.
abbrev pub PendingInv : Utf8Stream → Type 0
PendingInv s = (s.pending ≡ []) ⊎ ((length s.pending < s.expected_len) × (s.expected_len ≤ 4))

feed_lead-PendingInv : (s : Utf8Stream) (c : ℕ) → s.pending ≡ [] → PendingInv (feed_lead s c).next
unfolding feed_lead lead_length
feed_lead-PendingInv s c h = ground arith

feed_tail-PendingInv :
    (s : Utf8Stream) (c : ℕ) → s.expected_len ≤ 4 → PendingInv (feed_tail s c).next
unfolding feed_tail
feed_tail-PendingInv s c h = ground arith

none_pending→nil : (p : Bytes) → none_pending p ≡ true → p ≡ []
none_pending→nil [] h = refl
none_pending→nil (x ∷ xs) h = cc

feed_one-PendingInv : (s : Utf8Stream) (c : ℕ) → PendingInv s → PendingInv (feed_one s c).next
unfolding feed_one
feed_one-PendingInv s c (inl e) = rw (ap none_pending e) (feed_lead-PendingInv s c e)
feed_one-PendingInv s c (inr h) = elim (Bool-cases (none_pending s.pending)) [
  | inl p ↦ rw p (feed_lead-PendingInv s c (none_pending→nil s.pending p))
  | inr p ↦ rw p (feed_tail-PendingInv s c h.1)
]

-- The loop never holds more than three bytes, so that every write to pending[4] is in bounds.
pub feed-PendingInv :
    (grants : ℕ → Bool) (s : Utf8Stream) (xs : Bytes) (out : Bytebuf) (r : Fed Utf8Stream)
    → feed grants s xs out ≡ some r
    → PendingInv s
    → PendingInv r.state
unfolding feed
feed-PendingInv = feed_keeps-Inv utf8_machine utf8-Lawful PendingInv feed_one-PendingInv
