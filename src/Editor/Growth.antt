-- ===== src/Editor/Growth.antt =====
-- `editor_reserve`: its loop ends, and the capacity is enough for the text and its NUL.
use oi_c.Prelude.{
  ℕ, zero, suc, ◌+◌, ◌*◌, ◌≡◌, ◌≢◌, ◌⊎◌, arith, ◌≤◌, ◌<◌, Bool, true, ◌==◌, if◌then◌else◌, Option,
  none, some,
}
use oi_c.Status.{Status, ok}
use oi_c.Editor.{Editor, max_bytes, grow, reallocate, reserve}

-- The loop has ended, with room for what is required.
abbrev Ends : ℕ → Option ℕ → Type 0
Ends required none = ⊥
Ends required (some c) = required ≤ c

grow-Ends :
    (fuel cap required : ℕ)
    → 0 < cap
    → required ≤ max_bytes + 1
    → required ≤ cap + fuel
    → Ends required (grow fuel cap required)
unfolding grow
grow-Ends zero cap required p m h = ground arith
grow-Ends (suc fuel) cap required p m h = ground (arith, grow-Ends fuel (cap * 2) required)

-- A reserve that succeeds changes the capacity only, to one that is enough; any other changes nothing.
abbrev pub Reserved : Editor → ℕ → Status × Editor → Type 0
Reserved e n r =
    ((r.0 ≡ ok) × (n < r.1.cap) × (r.1.text ≡ e.text) × (r.1.cursor ≡ e.cursor))
    ⊎ ((r.0 ≢ ok) × (r.1 ≡ e))

module _ (grants : ℕ → Bool) (e : Editor) (n : ℕ) where
  reallocate-Reserved : (g : Option ℕ) → Ends (n + 1) g → Reserved e n (reallocate grants e g)
  unfolding reallocate
  reallocate-Reserved none h = absurd h
  reallocate-Reserved (some c) h = ground arith

  grow_here : n ≤ max_bytes → Ends (n + 1) (grow (n + 1) (if e.cap == 0 then 64 else e.cap) (n + 1))
  grow_here h = grow-Ends (n + 1) _ (n + 1) (ground arith) (omega arith) (omega arith)

  pub reserve-Reserved : Reserved e n (reserve grants e n)
  unfolding reserve
  reserve-Reserved = ground (
    arith,
    grow_here,
    reallocate-Reserved (grow (n + 1) (if e.cap == 0 then 64 else e.cap) (n + 1)),
  )

  reallocate-ok :
      (g : Option ℕ) → ((k : ℕ) → grants k ≡ true) → Ends (n + 1) g → (reallocate grants e g).0 ≡ ok
  unfolding reallocate
  reallocate-ok none given h = absurd h
  reallocate-ok (some c) given h = ground (arith, given c)

  -- It succeeds for every length up to the limit where the allocator gives what is asked for.
  pub reserve-ok : ((k : ℕ) → grants k ≡ true) → n ≤ max_bytes → (reserve grants e n).0 ≡ ok
  unfolding reserve
  reserve-ok given h = ground (
    arith,
    reallocate-ok (grow (n + 1) (if e.cap == 0 then 64 else e.cap) (n + 1)) given (grow_here h),
  )
