-- ===== src/Pump/Laws.antt =====
-- What a machine owes to the loop.
use oi_c.Prelude.{ℕ, ◌≡◌, true, false, [], ◌∷◌}
use oi_c.Pump.{Machine}

pub record Lawful {S : Type 0} (m : Machine S) : Type 0 where
  -- The fast path does what `feed_one` does.
  pub plain_one :
      (s : S) (c : ℕ)
      → m.idle s ≡ true
      → m.plain c ≡ true
      → m.one s c ≡ record { next = s; emits = c ∷ []; again = false }
  -- An idle machine consumes its byte, and a byte is given back to an idle machine only.
  pub idle_once : (s : S) (c : ℕ) → m.idle s ≡ true → (m.one s c).again ≡ false
  pub again_idle : (s : S) (c : ℕ) → (m.one s c).again ≡ true → m.idle (m.one s c).next ≡ true
