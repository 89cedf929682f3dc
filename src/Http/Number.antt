-- ===== src/Http/Number.antt =====
-- The bound on lengths: what is accepted is what fits, and its value is what the digits write.
use oi_c.Prelude.{
  ℕ, ◌+◌, ◌-◌, ◌*◌, ◌/◌, ◌≤◌, ◌<◌, ◌≡◌, inl, inr, refl, true, false, [], ◌∷◌, ltb, leb,
  if◌then◌else◌, Bytes, Option, none, some, arith, sym, Bool-cases, Option-cases,
}
use oi_c.Http.{max_value, dec_digit, hex_digit, accumulate, value}

abbrev pub within_limit : Option ℕ → Option ℕ
within_limit none = none
within_limit (some n) = if leb n max_value then some n else none

-- A base, its digits, and the test that is made before each multiplication.
module _ (base : ℕ) (digit : ℕ → Option ℕ)
    (test : (v c d : ℕ)
      → digit c ≡ some d
      → ltb ((max_value - d) / base) v ≡ false
      → v * base + d ≤ max_value)
    (test' : (v c d : ℕ)
      → digit c ≡ some d
      → ltb ((max_value - d) / base) v ≡ true
      → max_value < v * base + d)
    (grows : (v : ℕ) → v ≤ v * base) where
  -- Digits only add to a value.
  value_grows : (cs : Bytes) (v : ℕ) → max_value < v → within_limit (value base digit v cs) ≡ none
  unfolding value
  value_grows [] v h = ground arith
  value_grows (c ∷ cs) v h = elim (Option-cases (digit c)) [
    | inl e ↦ rw (e, value) refl
    | inr (d, e) ↦ rw (e, value) (value_grows cs (v * base + d) (omega (arith, grows v)))
  ]

  accumulate-value :
      (cs : Bytes) (v : ℕ)
      → v ≤ max_value
      → accumulate base digit v cs ≡ within_limit (value base digit v cs)
  unfolding value accumulate
  accumulate-value [] v h = ground arith
  accumulate-value (c ∷ cs) v h = elim (Option-cases (digit c)) [
    | inl e ↦ rw (e, value, accumulate) refl
    | inr (d, e) ↦ elim (Bool-cases (ltb ((max_value - d) / base) v)) [
      | inl over ↦
          rw (e, value, accumulate, over) (sym (value_grows cs (v * base + d) (test' v c d e over)))
      | inr fits ↦
          rw (e, value, accumulate, fits) (accumulate-value cs (v * base + d) (test v c d e fits))
    ]
  ]

dec_digit-lt : (c d : ℕ) → dec_digit c ≡ some d → d < 10
unfolding dec_digit
dec_digit-lt c d h = ground arith

hex_digit-lt : (c d : ℕ) → hex_digit c ≡ some d → d < 16
unfolding hex_digit
hex_digit-lt c d h = ground arith

-- A Content-Length is accepted exactly if its characters are decimal digits of a value of at most
-- 2^40, and is then that value: the test before each multiplication loses nothing.
pub decimal_lem :
    (cs : Bytes) → accumulate 10 dec_digit 0 cs ≡ within_limit (value 10 dec_digit 0 cs)
decimal_lem cs =
    accumulate-value 10 dec_digit (λ v c d h t. ground (arith, dec_digit-lt c d h))
      (λ v c d h t. ground (arith, dec_digit-lt c d h)) (λ v. omega arith) cs 0 (omega arith)

-- A chunk size is accepted exactly if its characters are hexadecimal digits of a value of at most
-- 2^40, and is then that value.
pub hexadecimal_lem :
    (cs : Bytes) → accumulate 16 hex_digit 0 cs ≡ within_limit (value 16 hex_digit 0 cs)
hexadecimal_lem cs =
    accumulate-value 16 hex_digit (λ v c d h t. ground (arith, hex_digit-lt c d h))
      (λ v c d h t. ground (arith, hex_digit-lt c d h)) (λ v. omega arith) cs 0 (omega arith)
