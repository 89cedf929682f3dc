-- ===== src/Utf8/Text.antt =====
-- `validate` against the texts that are sequences of Unicode scalar values.
use oi_c.Prelude.{
  ℕ, zero, suc, ◌-◌, ◌≤◌, ◌≡◌, refl, List, [], ◌∷◌, ◌++◌, arith, length, drop, All, Bytes,
  All-append, sym, ap, ◌∙◌, length-drop, drop-append, append_assoc, append-nil, ◌↔◌, inl, inr,
  subst,
}
use oi_c.Status.{Status, ok, err_parse, val, err, Result-cases, >>=-eq-err}
use oi_c.Utf8.{sequence_length, check_sequence, check_range, lead_length, validate, validate_from}
use oi_c.Utf8.Boundary.{sequence_length-splits, sequence_length_bounds}
use oi_c.Utf8.Encode.{IsScalar, emit_utf8, emit_all}
use oi_c.Utf8.RoundTrip.{sequence_length-emit_utf8}

-- Well-formed UTF-8: the encoding of some sequence of scalar values.
abbrev pub IsText : Bytes → Type 0
IsText text = (cps : List ℕ) × All IsScalar cps × (text ≡ emit_all cps)

emit_all-append : (xs ys : List ℕ) → emit_all (xs ++ ys) ≡ emit_all xs ++ emit_all ys
unfolding emit_all
emit_all-append [] ys = refl
emit_all-append (x ∷ xs) ys =
    ap (◌++◌ (emit_utf8 x)) (emit_all-append xs ys)
    ∙ sym (append_assoc (emit_utf8 x) (emit_all xs) (emit_all ys))

pub IsText-nil : IsText []
unfolding emit_all
IsText-nil = ([], tt, refl)

pub IsText-emit_utf8 : (cp : ℕ) → IsScalar cp → IsText (emit_utf8 cp)
unfolding emit_all
IsText-emit_utf8 cp s = (cp ∷ [], (s, tt), sym (append-nil (emit_utf8 cp)))

pub IsText-append : (xs ys : Bytes) → IsText xs → IsText ys → IsText (xs ++ ys)
IsText-append xs ys (ps, sp, ep) (qs, sq, eq) = (
  ps ++ qs,
  All-append IsScalar ps qs sp sq,
  ap (λ t. t ++ ys) ep ∙ ap (◌++◌ (emit_all ps)) eq ∙ sym (emit_all-append ps qs),
)

validate_from-drop : (k : ℕ) (xs : Bytes) → validate_from k xs ≡ validate (drop k xs)
unfolding validate validate_from
validate_from-drop zero [] = refl
validate_from-drop (suc k) [] = refl
validate_from-drop zero (x ∷ xs) = refl
validate_from-drop (suc k) (x ∷ xs) = validate_from-drop k xs

-- One round of the loop.
validate_step :
    (xs : Bytes) (n : ℕ) → sequence_length xs ≡ val n → validate xs ≡ validate (drop n xs)
unfolding validate validate_from
validate_step [] n h = absurd (omega (arith, sequence_length_bounds [] n h))
validate_step (x ∷ xs) zero h = absurd (omega (arith, sequence_length_bounds (x ∷ xs) 0 h))
validate_step (x ∷ xs) (suc n) h =
    rw (h, validate_from)
      (validate_from-drop (suc n - 1) xs ∙ ap (λ k. validate (drop k xs)) (omega arith))

validate_fails :
    (x : ℕ) (xs : Bytes) (e : Status) → sequence_length (x ∷ xs) ≡ err e → validate (x ∷ xs) ≡ e
unfolding validate validate_from
validate_fails x xs e h = ground arith

-- The only refusal is OI_ERR_PARSE.
check_range_refusal : (xs : Bytes) (n : ℕ) (e : Status) → check_range xs n ≡ err e → e ≡ err_parse
unfolding check_range
check_range_refusal xs n e h = ground arith

check_refusal : (xs : Bytes) (n : ℕ) (e : Status) → check_sequence xs n ≡ err e → e ≡ err_parse
unfolding check_sequence
check_refusal xs n e h = ground (arith, check_range_refusal xs n e)

lead_length_refusal : (x : ℕ) (e : Status) → lead_length x ≡ err e → e ≡ err_parse
unfolding lead_length
lead_length_refusal x e h = ground arith

pub sequence_length_refusal : (xs : Bytes) (e : Status) → sequence_length xs ≡ err e → e ≡ err_parse
unfolding sequence_length
sequence_length_refusal [] e h = ground arith
sequence_length_refusal (x ∷ xs) e h =
    elim (>>=-eq-err (lead_length x) (check_sequence (x ∷ xs)) h) [
      | inl l ↦ lead_length_refusal x e l
      | inr (n, _, c) ↦ check_refusal (x ∷ xs) n e c
    ]

validate-IsText_fuel : (f : ℕ) (xs : Bytes) → length xs ≤ f → validate xs ≡ ok → IsText xs
validate-IsText_fuel f [] l h = IsText-nil
validate-IsText_fuel zero (x ∷ xs) l h = absurd (omega arith)
validate-IsText_fuel (suc f) (x ∷ xs) l h = elim (Result-cases (sequence_length (x ∷ xs))) [
  | inl (n, e) ↦
      let (cp, s, split, c, _) = sequence_length-splits (x ∷ xs) n e in
      let (pos, _) = sequence_length_bounds (x ∷ xs) n e in
      let rest =
        validate-IsText_fuel f (drop n (x ∷ xs)) (omega (arith, length-drop n (x ∷ xs)))
          (sym (validate_step (x ∷ xs) n e) ∙ h) in
      subst IsText (sym split) (IsText-append (emit_utf8 cp) _ (IsText-emit_utf8 cp s) rest)
  | inr (e, r) ↦ cc (validate_fails x xs e r, sequence_length_refusal (x ∷ xs) e r)
]

validate-emit_all : (cps : List ℕ) → All IsScalar cps → validate (emit_all cps) ≡ ok
unfolding emit_all
validate-emit_all [] s = unfold validate validate_from in refl
validate-emit_all (cp ∷ cps) (s, ss) =
    validate_step _ _ (sequence_length-emit_utf8 cp (emit_all cps) s)
    ∙ ap validate (drop-append _ (emit_utf8 cp) (emit_all cps) refl)
    ∙ validate-emit_all cps ss

-- The validation says OI_OK exactly for the texts that are the encoding of some sequence of
-- Unicode scalar values.
pub validate_iff : (xs : Bytes) → (validate xs ≡ ok) ↔ IsText xs
validate_iff xs = (
  validate-IsText_fuel (length xs) xs (omega arith),
  λ t. ap validate t.2 ∙ validate-emit_all t.0 t.1,
)
