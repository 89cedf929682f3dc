-- ===== src/Http/Digits.antt =====
-- The two numbers that src/llm_http.c reads from a response: decimal and hexadecimal, with a bound
-- that is checked before each multiplication, so that no `long` overflows.
use oi_c.Prelude.{
  ℕ, ◌+◌, ◌-◌, ◌*◌, ◌/◌, Bool, [], ◌∷◌, ltb, within, if◌then◌else◌, Bytes, Option, none, some,
}

-- OI_HTTP_MAX_BODY_VALUE
abbrev pub max_value : ℕ
max_value = 1099511627776

unfoldable pub is_digit_c : ℕ → Bool
is_digit_c c = within b'0' b'9' c

unfoldable pub dec_digit : ℕ → Option ℕ
dec_digit c = if within b'0' b'9' c then some (c - b'0') else none

unfoldable pub hex_digit : ℕ → Option ℕ
hex_digit c =
    if within b'0' b'9' c
    then some (c - b'0')
    else if within b'a' b'f' c
    then some (10 + (c - b'a'))
    else if within b'A' b'F' c
    then some (10 + (c - b'A'))
    else none

-- The loop over the digits, in base `base`: `none` is OI_ERR_PARSE.
module _ (base : ℕ) (digit : ℕ → Option ℕ) where
  unfoldable pub accumulate : ℕ → Bytes → Option ℕ
  accumulate v [] = some v
  accumulate v (c ∷ cs) = elim (digit c) [
    | none ↦ none
    | some d ↦
        let rest = accumulate (v * base + d) cs in
        if ltb ((max_value - d) / base) v then none else rest
  ]

  -- The value that the digits write, from the left.
  unfoldable pub value : ℕ → Bytes → Option ℕ
  value v [] = some v
  value v (c ∷ cs) = elim (digit c) [ none ↦ none | some d ↦ value (v * base + d) cs ]
