-- ===== src/Sanitize/Laws.antt =====
-- The sanitizer is a lawful machine.
use oi_c.Prelude.{ℕ, ◌≡◌, true, false, [], ◌∷◌, arith}
use oi_c.Sanitize.{
  Phase, normal, Sanitizer, feed_in, is_normal, is_plain_passthrough, sanitize_machine,
}
use oi_c.Pump.Laws.{Lawful}

feed_in_plain :
    (p : Phase) (s : Sanitizer) (c : ℕ)
    → is_normal p ≡ true
    → is_plain_passthrough c ≡ true
    → feed_in p s c ≡ record { next = s; emits = c ∷ []; again = false }
unfolding feed_in
feed_in_plain normal s c i p = ground arith
feed_in_plain _ s c i p = cc

feed_in_once :
    (p : Phase) (s : Sanitizer) (c : ℕ) → is_normal p ≡ true → (feed_in p s c).again ≡ false
unfolding feed_in
feed_in_once normal s c i = ground arith
feed_in_once _ s c i = cc

feed_in_again :
    (p : Phase) (s : Sanitizer) (c : ℕ)
    → (feed_in p s c).again ≡ true
    → is_normal (feed_in p s c).next.phase ≡ true
unfolding feed_in
feed_in_again normal s c h = ground arith
feed_in_again _ s c h = ground arith

pub sanitize-Lawful : Lawful sanitize_machine
sanitize-Lawful = record {
  plain_one = λ s c. feed_in_plain s.phase s c;
  idle_once = λ s c. feed_in_once s.phase s c;
  again_idle = λ s c. feed_in_again s.phase s c;
}
