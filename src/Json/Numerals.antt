-- ===== src/Json/Numerals.antt =====
-- src/json_parse.c: numbers, from their first byte to the double, with memory at hand.
use oi_c.Prelude.{
  ℕ, ◌<◌, ◌≡◌, inl, inr, refl, sym, ap, ◌∙◌, subst, Bool, true, false, ◌||◌, List, [], ◌∷◌, ◌++◌,
  append_assoc, append-nil, leb, ◌==◌, length, All, length-append, Bytes, Bool-cases, Option, none,
  some, arith,
}
use oi_c.Json.Attach.{Plenty, HasCap, Takes}
use oi_c.Json.Grammar.{Spelled, validate-Spelled}
use oi_c.Json.Numbers.{
  is_digit, is_number_continuation, skip_one, skip_digits, some_digits, integer_part, fraction_part,
  exponent_part, ◌>>=◌, is_end, validate_json_number, finalize_number, handle_number_byte,
}
use oi_c.Json.Parser.{is_ws, start_value, step_in}
use oi_c.Json.Starts.{takes_value, between_start, attach_new-Attached}
use oi_c.Json.State.{Memory, arena, between, in_number, Frame, Parser}
use oi_c.Json.Steps.{
  Ready, Attached, Goes, onward, append-Goes, none-Goes, step-Goes, Rests, pending,
}
use oi_c.Json.Strings.{attach_new}
use oi_c.Json.Value.{Value, number, new_scalar}
use oi_c.Status.{ok}

abbrev Continues : Bytes → Type 0
Continues = All (λ c. is_number_continuation c ≡ true)

skip_digits-Continues : (s : Bytes) → Continues (skip_digits s) → Continues s
unfolding skip_digits is_number_continuation
skip_digits-Continues [] h = h
skip_digits-Continues (c ∷ cs) h = elim (Bool-cases (is_digit c)) [
  | inl e ↦ ((simp e refl), skip_digits-Continues cs (rw e at h))
  | inr e ↦ rw e at h
]

some_digits-Continues : (s t : Bytes) → some_digits s ≡ some t → Continues t → Continues s
unfolding some_digits is_number_continuation
some_digits-Continues [] t e h = cc
some_digits-Continues (c ∷ cs) t e h = elim (Bool-cases (is_digit c)) [
  | inl d ↦
      let same : skip_digits cs ≡ t = ground arith in
      ((simp d refl), skip_digits-Continues cs (rw same h))
  | inr d ↦ absurd (ground arith)
]

skip_one-Continues :
    (test : ℕ → Bool) (s : Bytes)
    → ((c : ℕ) → test c ≡ true → is_number_continuation c ≡ true)
    → Continues (skip_one test s)
    → Continues s
unfolding skip_one
skip_one-Continues test [] k h = h
skip_one-Continues test (c ∷ cs) k h = elim (Bool-cases (test c)) [
  | inl e ↦ (k c e, (rw e at h))
  | inr e ↦ rw e at h
]

exponent_part-Continues : (s t : Bytes) → exponent_part s ≡ some t → Continues t → Continues s
unfolding exponent_part is_number_continuation
exponent_part-Continues [] t e h = tt
exponent_part-Continues (c ∷ cs) t e h = elim (Bool-cases (c == b'e' || c == b'E')) [
  | inl d ↦
      let k : some_digits (skip_one (λ d. d == b'+' || d == b'-') cs) ≡ some t =
        ground (arith, e) in
      (
        ground arith,
        skip_one-Continues (λ d. d == b'+' || d == b'-') cs (λ x m. ground arith)
            (some_digits-Continues _ t k h),
      )
  | inr d ↦ let k : c ∷ cs ≡ t = ground (arith, e) in subst Continues (sym k) h
]

fraction_part-Continues : (s t : Bytes) → fraction_part s ≡ some t → Continues t → Continues s
unfolding fraction_part is_number_continuation
fraction_part-Continues [] t e h = tt
fraction_part-Continues (c ∷ cs) t e h = elim (Bool-cases (c == b'.')) [
  | inl d ↦
      let k : some_digits cs ≡ some t = simp d at e in
      (ground arith, some_digits-Continues cs t k h)
  | inr d ↦ let k : c ∷ cs ≡ t = ground (arith, e) in subst Continues (sym k) h
]

-- A number starts with a digit or a minus sign, and goes on with a digit, a point, a sign or an `e`.
abbrev pub IsNumeral : Bytes → Type 0
IsNumeral [] = ⊥
IsNumeral (c ∷ cs) = ((c == b'-' || is_digit c) ≡ true) × Continues cs

integer_part-IsNumeral : (s t : Bytes) → integer_part s ≡ some t → Continues t → IsNumeral s
unfolding integer_part some_digits is_digit
integer_part-IsNumeral [] t e h = cc
integer_part-IsNumeral (c ∷ cs) t e h = elim (Bool-cases (c == b'0')) [
  | inl d ↦ let k : cs ≡ t = ground (arith, e) in (ground arith, subst Continues (sym k) h)
  | inr d ↦ elim (Bool-cases (is_digit c)) [
    | inl g ↦
        let k : skip_digits cs ≡ t = ground (arith, e) in
        (ground arith, skip_digits-Continues cs (subst Continues (sym k) h))
    | inr g ↦ absurd (ground (arith, e))
  ]
]

IsNumeral→Continues : (s : Bytes) → IsNumeral s → Continues s
unfolding is_number_continuation is_digit
IsNumeral→Continues [] h = tt
IsNumeral→Continues (c ∷ cs) h = (ground (arith, h.0), h.1)

>>=-eq-some :
    (o : Option Bytes) (f : Bytes → Option Bytes) (t : Bytes)
    → (o >>= f) ≡ some t
    → (s : Bytes) × (o ≡ some s) × (f s ≡ some t)
>>=-eq-some none f t h = cc
>>=-eq-some (some s) f t h = (s, refl, h)

is_end-eq : (o : Option Bytes) → is_end o ≡ true → o ≡ some []
is_end-eq none h = cc
is_end-eq (some []) h = refl
is_end-eq (some (c ∷ cs)) h = cc

-- The part behind the minus sign.
parts-IsNumeral :
    (s : Bytes)
    → (integer_part s >>= λ t. fraction_part t >>= exponent_part) ≡ some []
    → IsNumeral s
parts-IsNumeral s h =
    let a = >>=-eq-some (integer_part s) (λ t. fraction_part t >>= exponent_part) [] h in
    let b = >>=-eq-some (fraction_part a.0) exponent_part [] a.2 in
    integer_part-IsNumeral s a.0 a.1
      (fraction_part-Continues a.0 b.0 b.1 (exponent_part-Continues b.0 [] b.2 tt))

pub validate_json_number-IsNumeral : (s : Bytes) → validate_json_number s ≡ true → IsNumeral s
unfolding validate_json_number skip_one integer_part
validate_json_number-IsNumeral [] h = absurd (cc)
validate_json_number-IsNumeral (c ∷ cs) h = elim (Bool-cases (c == b'-')) [
  | inl e ↦
      let k : (integer_part cs >>= λ t. fraction_part t >>= exponent_part) ≡ some [] =
        is_end-eq _ (rw e at h) in
      ((rw e refl), IsNumeral→Continues cs (parts-IsNumeral cs k))
  | inr e ↦ parts-IsNumeral (c ∷ cs) (is_end-eq _ (rw e at h))
]

-- A number of the grammar that `strtod` reads as `x`, and that the parser has room for.
abbrev pub Reads : {N : Type 0} → (Bytes → N × ℕ) → Bytes → N → Type 0
Reads strtod s x = Spelled s × (length s < 512) × (strtod s ≡ (x, length s))

module _ {N : Type 0} (strtod : Bytes → N × ℕ) (grants : Memory → ℕ → Bool)
    (plenty : Plenty grants) where
  -- The bytes of a number that have been read.
  record Reading (ds : Bytes) (fs : List (Frame N)) (p : Parser N) : Type 0 where
    in_state : p.state ≡ in_number
    stack : p.frames ≡ fs
    read : p.digits ≡ ds
    cap : HasCap p

  first-Goes :
      (c : ℕ) (fs : List (Frame N)) (p : Parser N)
      → (c == b'-' || is_digit c) ≡ true
      → Ready between fs p
      → takes_value fs ≡ true
      → Goes strtod grants p (c ∷ []) (Reading (c ∷ []) fs)
  unfolding is_ws start_value is_digit
  first-Goes c fs p n r o =
      let q : Parser N = record p { parsing_key = false; state = in_number; digits = c ∷ [] } in
      let w : is_ws c ≡ false = ground arith in
      let b : (c == b']') ≡ false = ground arith in
      let e : start_value strtod grants (record p { parsing_key = false }) c ≡ (ok, q) =
        ground (arith, n) in
      step-Goes strtod grants p c between (ok, q) r.in_state
        (between_start strtod grants fs p c r o (w, b) ∙ ap (λ x. (x.0, x.1, true)) e)
        (
          refl,
          record { in_state = refl; stack = r.stack; read = refl; cap = (r.positive, r.sized) },
        )

  digits-Goes :
      (cs ds : Bytes) (fs : List (Frame N)) (p : Parser N)
      → Continues cs
      → Reading ds fs p
      → length (ds ++ cs) < 512
      → Goes strtod grants p cs (Reading (ds ++ cs) fs)
  unfolding step_in handle_number_byte
  digits-Goes [] ds fs p k r l =
      subst (λ x. Goes strtod grants p [] (Reading x fs)) (sym (append-nil ds))
        (none-Goes strtod grants p r)
  digits-Goes (c ∷ cs) ds fs p k r l =
      let s : leb 511 (length p.digits) ≡ false =
        ground (arith, ap length r.read, length-append ds (c ∷ cs)) in
      let q : Parser N = record p { digits = p.digits ++ (c ∷ []) } in
      let e : (ds ++ (c ∷ [])) ++ cs ≡ ds ++ (c ∷ cs) = append_assoc ds (c ∷ []) cs in
      let first : Goes strtod grants p (c ∷ []) (Reading (ds ++ (c ∷ [])) fs) =
        step-Goes strtod grants p c in_number (ok, q) r.in_state (simp (k.0, s) refl)
          (
            refl,
            record {
              in_state = r.in_state;
              stack = r.stack;
              read = ap (λ x. x ++ (c ∷ [])) r.read;
              cap = r.cap;
            },
          ) in
      append-Goes strtod grants p (c ∷ []) cs first λ p1 r1.
        subst (λ x. Goes strtod grants p1 cs (Reading x fs)) e
          (digits-Goes cs (ds ++ (c ∷ [])) fs p1 k.1 r1 (rw e l))

  Reading-Rests :
      (s : Bytes) (x : N) (fs : List (Frame N)) (p : Parser N)
      → Reads strtod s x
      → Takes fs
      → Reading s fs p
      → Rests strtod grants (Attached fs (number x)) p
  unfolding finalize_number new_scalar
  Reading-Rests s x fs p h t r =
      let v : validate_json_number p.digits ≡ true = rw r.read (validate-Spelled s h.0) in
      let d : strtod p.digits ≡ (x, length p.digits) = rw r.read h.2 in
      let o : Option (Value N) = new_scalar (grants arena) (number (strtod p.digits).0) in
      let a =
        attach_new-Attached strtod grants plenty p fs (number x) o
          (simp (plenty.from_arena 32 (omega arith) (omega arith), d) refl) r.stack r.cap t in
      let k : ((strtod p.digits).1 == length p.digits) ≡ true = rw d (ground arith) in
      let e : finalize_number strtod grants p ≡ attach_new grants p o = simp (v, k) refl in
      pending r.in_state (ap (λ y. y.0) e ∙ a.0)
        (subst (Attached fs (number x)) (sym (ap (λ y. y.1) e)) a.1)

  numeral-Goes :
      (s : Bytes) (x : N) (fs : List (Frame N)) (p : Parser N)
      → IsNumeral s
      → Reads strtod s x
      → Ready between fs p
      → takes_value fs ≡ true
      → Takes fs
      → Goes strtod grants p s (Rests strtod grants (Attached fs (number x)))
  numeral-Goes [] x fs p n h r o t = absurd n
  numeral-Goes (c ∷ cs) x fs p n h r o t =
      append-Goes strtod grants p (c ∷ []) cs (first-Goes c fs p n.0 r o) λ p1 r1.
        onward strtod grants (digits-Goes cs (c ∷ []) fs p1 n.1 r1 h.1)
          λ p2. Reading-Rests (c ∷ cs) x fs p2 h t

  pub number-Goes :
      (s : Bytes) (x : N) (fs : List (Frame N)) (p : Parser N)
      → Reads strtod s x
      → Ready between fs p
      → takes_value fs ≡ true
      → Takes fs
      → Goes strtod grants p s (Rests strtod grants (Attached fs (number x)))
  number-Goes s x fs p h =
      numeral-Goes s x fs p (validate_json_number-IsNumeral s (validate-Spelled s h.0)) h
