-- ===== src/Selector/Laws.antt =====
-- The selection stays on an option, and up and down undo each other.
use native.Mathlib.Nat.{mod-eq_of_lt, mod_self}
use oi_c.Prelude.{
  ℕ, ◌+◌, ◌-◌, ◌%◌, ◌<◌, ◌≡◌, ◌⊎◌, if◌then◌else◌, inl, inr, refl, arith, Bool-cases, ltb, ◌==◌, ap,
  ◌∙◌,
}
use oi_c.Input.{EventType, up, down, text, Event}
use oi_c.Selector.{Action, act, apply}
use oi_c.Status.{val}

act-lt : (k : EventType) (e : Event) (n i : ℕ) → i < n → (act k e n i).0 < n
unfolding act
act-lt up e n i h = ground arith
act-lt down e n i h = ground arith
act-lt text e n i h = ground arith
act-lt _ e n i h = h

-- From a selected option, any event is accepted and leaves an option selected.
pub apply-lt : (e : Event) (n i : ℕ) → i < n → (r : ℕ × Action) × (apply e n i ≡ val r) × (r.0 < n)
unfolding apply
apply-lt e n i h = (act e.kind e n i, ground arith, act-lt e.kind e n i h)

-- The option after `i`, cyclically.
wrap : (n i j : ℕ) → j ≡ i + 1 → i < n → (j % n ≡ 0) × (j ≡ n) ⊎ (j % n ≡ j) × (j < n)
wrap n i j e h = elim (Bool-cases (ltb j n)) [
  | inl l ↦ inr (mod-eq_of_lt {n = j} {m = n} (ground arith), ground arith)
  | inr g ↦ let last : j ≡ n = ground arith in inl (ap (λ k. k % n) last ∙ mod_self n, last)
]

before : ℕ → ℕ → ℕ
before n i = if i == 0 then n - 1 else i - 1

before-lt : (n i : ℕ) → i < n → before n i < n
unfolding before
before-lt n i h = ground arith

after-before : (n i : ℕ) → i < n → (before n i + 1) % n ≡ i
unfolding before
after-before n i h = ground (arith, wrap n (before n i) (before n i + 1) refl (before-lt n i h))

before-after : (n i : ℕ) → i < n → before n ((i + 1) % n) ≡ i
unfolding before
before-after n i h = ground (arith, wrap n i (i + 1) refl h)

-- From a selected option, up and then down selects it again, and so does down and then up, past
-- the ends too.
pub act-up-down :
    (e f : Event) (n i : ℕ)
    → i < n
    → ((act down f n (act up e n i).0).0 ≡ i) × ((act up f n (act down e n i).0).0 ≡ i)
unfolding act before
act-up-down e f n i h = (ground (arith, after-before n i h), ground (arith, before-after n i h))
