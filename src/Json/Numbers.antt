-- ===== src/Json/Numbers.antt =====
-- src/json_parse.c: numbers. `strtod` is the C library's, on a text: the double and the length it read.
use oi_c.Prelude.{
  ℕ, ◌-◌, Bool, true, false, not, ◌||◌, [], ◌∷◌, ◌++◌, leb, ◌==◌, within, if◌then◌else◌, length,
  Bytes, Option, none, some,
}
use oi_c.Json.State.{Memory, arena, error, Parser, fail, max_number_len}
use oi_c.Json.Strings.{attach_new}
use oi_c.Json.Value.{number, new_scalar}
use oi_c.Status.{Status, ok, err_parse}

unfoldable pub is_digit : ℕ → Bool
is_digit c = within b'0' b'9' c

unfoldable pub is_number_continuation : ℕ → Bool
unfolding is_digit
is_number_continuation c =
    is_digit c || c == b'.' || c == b'e' || c == b'E' || c == b'+' || c == b'-'

-- The text behind an optional byte that satisfies `test`.
unfoldable pub skip_one : (ℕ → Bool) → Bytes → Bytes
skip_one test [] = []
skip_one test (c ∷ cs) = if test c then cs else c ∷ cs

-- `while (i < len && is_digit(s[i])) i++`
unfoldable pub skip_digits : Bytes → Bytes
skip_digits [] = []
skip_digits (c ∷ cs) = let rest = skip_digits cs in if is_digit c then rest else c ∷ cs

-- One digit at least, and then all of them; `none` where there is none.
unfoldable pub some_digits : Bytes → Option Bytes
some_digits [] = none
some_digits (c ∷ cs) = if is_digit c then some (skip_digits cs) else none

unfoldable pub integer_part : Bytes → Option Bytes
integer_part [] = none
integer_part (c ∷ cs) = if c == b'0' then some cs else some_digits (c ∷ cs)

unfoldable pub fraction_part : Bytes → Option Bytes
fraction_part [] = some []
fraction_part (c ∷ cs) = if c == b'.' then some_digits cs else some (c ∷ cs)

unfoldable pub exponent_part : Bytes → Option Bytes
exponent_part [] = some []
exponent_part (c ∷ cs) =
    if c == b'e' || c == b'E'
    then some_digits (skip_one (λ d. d == b'+' || d == b'-') cs)
    else some (c ∷ cs)

infixl 5 ◌>>=◌
abbrev pub ◌>>=◌ : Option Bytes → (Bytes → Option Bytes) → Option Bytes
none >>= f = none
some t >>= f = f t

abbrev pub is_end : Option Bytes → Bool
is_end (some []) = true
is_end _ = false

unfoldable pub validate_json_number : Bytes → Bool
validate_json_number s =
    is_end (integer_part (skip_one (λ c. c == b'-') s) >>= λ t. fraction_part t >>= exponent_part)

module _ {N : Type 0} (strtod : Bytes → N × ℕ) (grants : Memory → ℕ → Bool) where
  unfoldable pub finalize_number : Parser N → Status × Parser N
  finalize_number p =
      let d = strtod p.digits in
      if not (validate_json_number p.digits)
      then fail p err_parse
      else if not (d.1 == length p.digits)
      then fail p err_parse
      else attach_new grants p (new_scalar (grants arena) (number d.0))

  -- The last component is `*consumed`.
  unfoldable pub handle_number_byte : Parser N → ℕ → Status × Parser N × Bool
  handle_number_byte p c =
      let r = finalize_number p in
      if is_number_continuation c
      then (if leb (max_number_len - 1) (length p.digits)
          then (err_parse, record p { state = error }, true)
          else (ok, record p { digits = p.digits ++ (c ∷ []) }, true))
      else (r.0, r.1, false)
