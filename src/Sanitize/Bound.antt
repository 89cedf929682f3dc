-- ===== src/Sanitize/Bound.antt =====
-- A sequence is swallowed for a bounded number of bytes.
use oi_c.Prelude.{
  ℕ, suc, ◌+◌, ◌≤◌, ◌<◌, ◌≡◌, ◌⊎◌, inl, inr, refl, Bool, false, [], ◌∷◌, arith, Bytes, length, take,
  some,
}
use oi_c.Bytebuf.{Bytebuf}
use oi_c.Pump.{Fed, byte, transduce}
use oi_c.Pump.Refine.{feed_keeps-Inv}
use oi_c.Sanitize.{
  Phase, normal, saw_c2, escape, csi, string, string_esc, Sanitizer, feed_in, sanitize_machine,
  feed, cleared, max_sequence,
}
use oi_c.Sanitize.Laws.{sanitize-Lawful}

-- Outside a sequence nothing is counted; inside one the count stays below the cap.
abbrev CountInv : Phase → ℕ → Type 0
CountInv normal n = n ≡ 0
CountInv saw_c2 n = n ≡ 0
CountInv _ n = (0 < n) × (n < max_sequence)

abbrev pub Inv : Sanitizer → Type 0
Inv s = CountInv s.phase s.sequence_bytes

feed_in-Inv :
    (p : Phase) (s : Sanitizer) (c : ℕ)
    → s.phase ≡ p
    → CountInv p s.sequence_bytes
    → Inv (feed_in p s c).next
unfolding feed_in
feed_in-Inv normal s c e i = ground arith
feed_in-Inv _ s c e i = ground arith

-- The loop keeps the count below OI_CLI_SANITIZE_MAX_SEQUENCE, and zero outside a sequence.
pub feed-Inv :
    (grants : ℕ → Bool) (s : Sanitizer) (xs : Bytes) (out : Bytebuf) (r : Fed Sanitizer)
    → feed grants s xs out ≡ some r
    → Inv s
    → Inv r.state
unfolding feed
feed-Inv = feed_keeps-Inv sanitize_machine sanitize-Lawful Inv (λ s c. feed_in-Inv s.phase s c refl)

-- Within a CSI sequence or a control string.
abbrev InSequence : Phase → Type 0
InSequence csi = Unit {0}
InSequence string = Unit {0}
InSequence string_esc = Unit {0}
InSequence _ = ⊥

-- A byte inside a sequence ends it, or is counted; nothing is appended.
swallows :
    (p : Phase) (s : Sanitizer) (c : ℕ)
    → InSequence p
    → ((feed_in p s c).again ≡ false)
      × ((feed_in p s c).emits ≡ [])
      × (((feed_in p s c).next ≡ cleared)
          ⊎ (InSequence (feed_in p s c).next.phase
              × ((feed_in p s c).next.sequence_bytes ≡ s.sequence_bytes + 1)
              × (s.sequence_bytes + 1 < max_sequence)))
unfolding feed_in
swallows normal s c i = absurd i
swallows saw_c2 s c i = absurd i
swallows escape s c i = absurd i
swallows csi s c i = ground arith
swallows string s c i = ground arith
swallows string_esc s c i = ground arith

-- From within a CSI sequence or a control string below the cap, given enough bytes to reach it,
-- the sanitizer swallows at most as many bytes as the cap of 4096 still leaves, emits none of
-- them, and is then back in its initial state.
pub transduce_resumes :
    (xs : Bytes) (s : Sanitizer)
    → InSequence s.phase
    → s.sequence_bytes < max_sequence
    → max_sequence ≤ s.sequence_bytes + length xs
    → (k : ℕ) × (s.sequence_bytes + k ≤ max_sequence)
      × (transduce sanitize_machine s (take k xs) ≡ (cleared, []))
unfolding transduce byte
transduce_resumes [] s i l h = absurd (omega arith)
transduce_resumes (x ∷ xs) s i l h =
    let (a, e, c) = swallows s.phase s x i in
    elim c [
      | inl n ↦ (1, omega arith, rw (a, e, n) refl)
      | inr (j, n, b) ↦
          let t = (feed_in s.phase s x).next in
          let (k, d, f) = transduce_resumes xs t j (omega arith) (omega arith) in
          (suc k, omega arith, rw (a, e, f) refl)
    ]
