-- ===== src/Sanitize/Safe.antt =====
-- No control byte gets through.
use oi_c.Prelude.{
  ℕ, ◌≤◌, ◌≡◌, ◌≢◌, ◌⊎◌, inl, inr, Bool, true, [], ◌∷◌, arith, ◌&&◌, Bytes, All, All-append,
  Bool-cases, some,
}
use oi_c.Bytebuf.{Bytebuf}
use oi_c.Pump.{Fed, round, plain_run}
use oi_c.Pump.Refine.{feed_keeps}
use oi_c.Sanitize.{
  Phase, normal, Sanitizer, feed_in, is_normal, is_plain_passthrough, sanitize_machine, feed,
}
use oi_c.Sanitize.Laws.{sanitize-Lawful}

-- No byte below 0x20 but tab and newline, and no DEL: ESC is 0x1b.
abbrev pub IsPrintable : ℕ → Type 0
IsPrintable c = (c ≡ 0x09) ⊎ (c ≡ 0x0a) ⊎ ((0x20 ≤ c) × (c ≢ 0x7f))

passthrough-IsPrintable : (c : ℕ) → is_plain_passthrough c ≡ true → IsPrintable c
unfolding is_plain_passthrough
passthrough-IsPrintable c h = ground arith

emits-IsPrintable : (p : Phase) (s : Sanitizer) (c : ℕ) → All IsPrintable (feed_in p s c).emits
unfolding feed_in
emits-IsPrintable normal s c = ground arith
emits-IsPrintable _ s c = ground arith

run-IsPrintable : (xs : Bytes) → All IsPrintable (plain_run is_plain_passthrough xs)
unfolding plain_run
run-IsPrintable [] = tt
run-IsPrintable (x ∷ xs) = elim (Bool-cases (is_plain_passthrough x)) [
  | inl h ↦ rw h (passthrough-IsPrintable x h, run-IsPrintable xs)
  | inr h ↦ rw h tt
]

round-IsPrintable :
    (s : Sanitizer) (x : ℕ) (xs : Bytes) → All IsPrintable (round sanitize_machine s x xs).emits
unfolding round
round-IsPrintable s x xs = elim (Bool-cases (is_normal s.phase && is_plain_passthrough x)) [
  | inl h ↦ rw h (run-IsPrintable (x ∷ xs))
  | inr h ↦ rw h (emits-IsPrintable s.phase s x)
]

-- Whatever the input bytes and the state of the sanitizer, a call leaves an output without bytes
-- below 0x20 other than tab and newline, and without DEL, if the output had none before; no ESC
-- gets through.
pub feed-IsPrintable :
    (grants : ℕ → Bool) (s : Sanitizer) (xs : Bytes) (out : Bytebuf) (r : Fed Sanitizer)
    → feed grants s xs out ≡ some r
    → All IsPrintable out.contents
    → All IsPrintable r.out.contents
unfolding feed
feed-IsPrintable =
    feed_keeps sanitize_machine sanitize-Lawful (All IsPrintable) (All-append IsPrintable)
      round-IsPrintable
