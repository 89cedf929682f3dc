-- ===== src/Utf8Stream/Laws.antt =====
-- The stream is a lawful machine, so its loop ends and refines the specification.
use oi_c.Prelude.{ℕ, ◌≡◌, true, false, [], ◌∷◌, arith, ltb}
use oi_c.Utf8.{lead_length}
use oi_c.Utf8Stream.{Utf8Stream, feed_one, feed_lead, feed_tail, utf8_machine}
use oi_c.Pump.Laws.{Lawful}

feed_lead_again : (s : Utf8Stream) (c : ℕ) → (feed_lead s c).again ≡ false
unfolding feed_lead lead_length
feed_lead_again s c = ground arith

feed_lead_plain :
    (s : Utf8Stream) (c : ℕ)
    → ltb c 0x80 ≡ true
    → feed_lead s c ≡ record { next = s; emits = c ∷ []; again = false }
unfolding feed_lead lead_length
feed_lead_plain s c h = ground arith

feed_tail_again :
    (s : Utf8Stream) (c : ℕ) → (feed_tail s c).again ≡ true → (feed_tail s c).next.pending ≡ []
unfolding feed_tail
feed_tail_again s c h = ground arith

pub utf8-Lawful : Lawful utf8_machine
unfolding feed_one
utf8-Lawful = record {
  plain_one = λ s c i p. rw i (feed_lead_plain s c p);
  idle_once = λ s c i. rw i (feed_lead_again s c);
  again_idle = λ s c h. ground (arith, feed_lead_again s c, feed_tail_again s c);
}
