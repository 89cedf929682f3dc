-- ===== src/Json/Grammar.antt =====
-- The numbers of RFC 8259, on their own, and `validate_json_number` of src/json_parse.c, which accepts them.
use oi_c.Prelude.{
  ℕ, ◌≤◌, ◌≡◌, inl, inr, refl, Bool, true, false, ◌||◌, [], ◌∷◌, ◌++◌, ◌==◌, if◌then◌else◌, All,
  Bytes, Option, none, some, arith, append-nil, ap, ◌∙◌, sym, Bool-cases,
}
use oi_c.Json.Numbers.{
  is_digit, skip_one, skip_digits, some_digits, integer_part, fraction_part, exponent_part, ◌>>=◌,
  is_end, validate_json_number,
}

abbrev Digit : ℕ → Type 0
Digit c = (48 ≤ c) × (c ≤ 57)

-- One digit at least.
pub record Digits : Type 0 where
  pub first : ℕ
  pub others : Bytes
  pub first_is : Digit first
  pub others_are : All Digit others

-- `int`: a zero, or digits that do not start with one.
pub data Whole : Type 0 where
  nought : Whole
  natural : (ds : Digits) → 49 ≤ ds.first → Whole

pub data Sign : Type 0 where
  bare plus minus : Sign

-- `exp`: the letter is an `E` or an `e`.
pub record Exponent : Type 0 where
  pub capital : Bool
  pub sign : Sign
  pub power : Digits

pub record Numeral : Type 0 where
  pub negative : Bool
  pub whole : Whole
  pub fraction : Option Digits
  pub exponent : Option Exponent

abbrev spell_digits : Digits → Bytes
spell_digits d = d.first ∷ d.others

abbrev spell_whole : Whole → Bytes
spell_whole nought = b'0' ∷ []
spell_whole (natural d h) = spell_digits d

abbrev spell_fraction : Option Digits → Bytes
spell_fraction none = []
spell_fraction (some d) = b'.' ∷ spell_digits d

abbrev spell_sign : Sign → Bytes
spell_sign bare = []
spell_sign plus = b'+' ∷ []
spell_sign minus = b'-' ∷ []

abbrev spell_exponent : Option Exponent → Bytes
spell_exponent none = []
spell_exponent (some e) =
    (if e.capital then b'E' else b'e') ∷ (spell_sign e.sign ++ spell_digits e.power)

abbrev behind_sign : Numeral → Bytes
behind_sign n = spell_whole n.whole ++ (spell_fraction n.fraction ++ spell_exponent n.exponent)

-- `number = [ minus ] int [ frac ] [ exp ]`
abbrev pub spell : Numeral → Bytes
spell n = if n.negative then b'-' ∷ behind_sign n else behind_sign n

-- A text of the grammar.
abbrev pub Spelled : Bytes → Type 0
Spelled s = (n : Numeral) × (s ≡ spell n)

-- The text does not go on with a digit.
abbrev Stops : Bytes → Type 0
Stops [] = Unit
Stops (c ∷ cs) = is_digit c ≡ false

skip_digits-Stops : (rest : Bytes) → Stops rest → skip_digits rest ≡ rest
unfolding skip_digits
skip_digits-Stops [] h = refl
skip_digits-Stops (c ∷ cs) h = rw h refl

skip_digits-append : (ds rest : Bytes) → All Digit ds → Stops rest → skip_digits (ds ++ rest) ≡ rest
unfolding skip_digits
skip_digits-append [] rest h s = skip_digits-Stops rest s
skip_digits-append (c ∷ cs) rest h s =
    let d : is_digit c ≡ true = unfold is_digit in ground (arith, h.0) in
    rw d (skip_digits-append cs rest h.1 s)

some_digits-append :
    (d : Digits) (rest : Bytes) → Stops rest → some_digits (spell_digits d ++ rest) ≡ some rest
unfolding some_digits
some_digits-append d rest s =
    let e : is_digit d.first ≡ true = unfold is_digit in ground (arith, d.first_is) in
    rw e (ap some (skip_digits-append d.others rest d.others_are s))

skip_sign :
    (s : Sign) (d : Digits)
    → skip_one (λ c. c == b'+' || c == b'-') (spell_sign s ++ spell_digits d) ≡ spell_digits d
unfolding skip_one
skip_sign bare d =
    let e : (d.first == b'+' || d.first == b'-') ≡ false = ground (arith, d.first_is) in rw e refl
skip_sign plus d = refl
skip_sign minus d = refl

all_digits : (d : Digits) → some_digits (spell_digits d) ≡ some []
unfolding some_digits
all_digits d =
    let e : is_digit d.first ≡ true = unfold is_digit in ground (arith, d.first_is) in
    rw e (
      ap some (
        ap skip_digits (sym (append-nil d.others))
        ∙ skip_digits-append d.others [] d.others_are tt))

exponent_lem : (o : Option Exponent) → exponent_part (spell_exponent o) ≡ some []
unfolding exponent_part
exponent_lem none = refl
exponent_lem (some e) = elim (Bool-cases e.capital) [
  | inl c ↦ rw (c, skip_sign e.sign e.power) (all_digits e.power)
  | inr c ↦ rw (c, skip_sign e.sign e.power) (all_digits e.power)
]

exponent-Stops : (o : Option Exponent) → Stops (spell_exponent o)
unfolding is_digit
exponent-Stops none = tt
exponent-Stops (some e) = ground arith

fraction_lem :
    (f : Option Digits) (o : Option Exponent)
    → fraction_part (spell_fraction f ++ spell_exponent o) ≡ some (spell_exponent o)
unfolding fraction_part
fraction_lem none none = refl
fraction_lem none (some e) = elim (Bool-cases e.capital) [ inl c ↦ rw c refl | inr c ↦ rw c refl ]
fraction_lem (some d) o = some_digits-append d (spell_exponent o) (exponent-Stops o)

fraction-Stops :
    (f : Option Digits) (o : Option Exponent) → Stops (spell_fraction f ++ spell_exponent o)
fraction-Stops none o = exponent-Stops o
fraction-Stops (some d) o = unfold is_digit in refl

integer_lem :
    (w : Whole) (rest : Bytes) → Stops rest → integer_part (spell_whole w ++ rest) ≡ some rest
unfolding integer_part
integer_lem nought rest s = refl
integer_lem (natural d h) rest s =
    let e : (d.first == b'0') ≡ false = ground (arith, h) in rw e (some_digits-append d rest s)

no_minus :
    (w : Whole) (rest : Bytes)
    → skip_one (λ c. c == b'-') (spell_whole w ++ rest) ≡ spell_whole w ++ rest
unfolding skip_one
no_minus nought rest = refl
no_minus (natural d h) rest = let e : (d.first == b'-') ≡ false = ground (arith, h) in rw e refl

-- The parts of a numeral, one after the other.
parts_lem :
    (n : Numeral)
    → is_end (integer_part (behind_sign n) >>= λ t. fraction_part t >>= exponent_part) ≡ true
parts_lem n =
    let rest = spell_fraction n.fraction ++ spell_exponent n.exponent in
    rw
      (
        integer_lem n.whole rest (fraction-Stops n.fraction n.exponent),
        fraction_lem n.fraction n.exponent,
        exponent_lem n.exponent,
      )
      refl

validate-spell : (n : Numeral) → validate_json_number (spell n) ≡ true
unfolding validate_json_number
validate-spell n = elim (Bool-cases n.negative) [
  | inl e ↦ rw e (unfold skip_one in parts_lem n)
  | inr e ↦
      rw (e, no_minus n.whole (spell_fraction n.fraction ++ spell_exponent n.exponent))
        (parts_lem n)
]

pub validate-Spelled : (s : Bytes) → Spelled s → validate_json_number s ≡ true
validate-Spelled s h = rw h.1 (validate-spell h.0)
