-- ===== src/Http/Length.antt =====
-- src/llm_http.c, `handle_header_line` on a Content-Length.
use oi_c.Prelude.{
  ℕ, zero, suc, ◌+◌, ◌*◌, ◌≤◌, ◌<◌, ◌≡◌, ◌⊎◌, inl, inr, refl, sym, ap, ◌∙◌, subst, Bool, true,
  false, List, [], ◌∷◌, ◌++◌, leb, ◌==◌, length, Bytes, codes, All, Option, none, some, arith,
  Bool-cases, Option-cases,
}
use oi_c.Http.{
  Parser, header_line, error, max_value, dec_digit, accumulate, value, before, skip_spaces,
  equal_nocase, conflicts, set_length, handle_header, handle_header_line,
}
use oi_c.Http.Number.{within_limit, decimal_lem}
use oi_c.Status.{Status, ok, err_parse}

-- The characters of digits, and the number that the digits are, from the left behind `v`.
unfoldable pub ascii : List ℕ → Bytes
ascii [] = []
ascii (d ∷ ds) = (48 + d) ∷ ascii ds

unfoldable pub horner : ℕ → List ℕ → ℕ
horner v [] = v
horner v (d ∷ ds) = horner (v * 10 + d) ds

abbrev pub AreDigits : List ℕ → Type 0
AreDigits = All (λ d. d < 10)

-- The text is digits, one at least, and their number is `n`.
abbrev pub Writes : Bytes → ℕ → Type 0
Writes text n =
    (ds : List ℕ) × AreDigits ds × (0 < length ds) × (text ≡ ascii ds) × (horner 0 ds ≡ n)

-- No length has been given before, or the same.
abbrev pub Agrees : Option ℕ → ℕ → Type 0
Agrees none n = Unit
Agrees (some m) n = m ≡ n

-- A length that is accepted.
abbrev pub Accepted : Parser → Bytes → ℕ → Type 0
Accepted p text n = Writes text n × (n ≤ max_value) × Agrees p.content_length n

abbrev pub Settled : Parser → Bytes → Status × Parser → Type 0
Settled p text r =
    ((n : ℕ) × Accepted p text n
      × (r ≡ (ok, record p { content_length = some n; state = header_line })))
    ⊎ (¬ ((n : ℕ) × Accepted p text n)) × (r ≡ (err_parse, record p { state = error }))

value-ascii :
    (ds : List ℕ) (v : ℕ) → AreDigits ds → value 10 dec_digit v (ascii ds) ≡ some (horner v ds)
unfolding value ascii horner
value-ascii [] v h = refl
value-ascii (d ∷ ds) v h =
    let e : dec_digit (48 + d) ≡ some d = unfold dec_digit in ground (arith, h.0) in
    rw (e, value) (value-ascii ds (v * 10 + d) h.1)

value-Digits :
    (text : Bytes) (v n : ℕ)
    → value 10 dec_digit v text ≡ some n
    → (ds : List ℕ) × AreDigits ds
      × (length ds ≡ length text)
      × (text ≡ ascii ds)
      × (horner v ds ≡ n)
unfolding value ascii horner
value-Digits [] v n h = ([], tt, refl, refl, ground arith)
value-Digits (c ∷ cs) v n h = elim (Option-cases (dec_digit c)) [
  | inl e ↦ absurd (let k : none ≡ some n = (rw (e, value) at h) in cc)
  | inr (d, e) ↦
      let k : value 10 dec_digit (v * 10 + d) cs ≡ some n = rw (e, value) at h in
      let r = value-Digits cs (v * 10 + d) n k in
      let lt : d < 10 = unfold dec_digit in ground arith in
      let same : c ≡ 48 + d = unfold dec_digit in ground arith in
      (d ∷ r.0, (lt, r.1), ap suc r.2, rw same (ap (◌∷◌ (48 + d)) r.3), r.4)
]

within_limit-some :
    (o : Option ℕ) (n : ℕ) → within_limit o ≡ some n → (o ≡ some n) × (n ≤ max_value)
within_limit-some none n h = absurd (cc)
within_limit-some (some m) n h = (ground arith, ground arith)

-- What `accumulate` accepts.
accumulate-Writes :
    (text : Bytes) (n : ℕ)
    → 0 < length text
    → accumulate 10 dec_digit 0 text ≡ some n
    → Writes text n × (n ≤ max_value)
accumulate-Writes text n l h =
    let w = within_limit-some (value 10 dec_digit 0 text) n (sym (decimal_lem text) ∙ h) in
    let (ds, a, b, c, d) = value-Digits text 0 n w.0 in ((ds, a, omega (arith, b, l), c, d), w.1)

Writes-accumulate :
    (text : Bytes) (n : ℕ) → Writes text n → n ≤ max_value → accumulate 10 dec_digit 0 text ≡ some n
Writes-accumulate text n (ds, d, l, e, g) m =
    let k : value 10 dec_digit 0 text ≡ some n =
      ap (value 10 dec_digit 0) e ∙ (value-ascii ds 0 d ∙ ap some g) in
    let i : leb n max_value ≡ true = ground arith in
    decimal_lem text ∙ (ap within_limit k ∙ rw i refl)

conflicts-Agrees : (o : Option ℕ) (n : ℕ) → conflicts o n ≡ false → Agrees o n
conflicts-Agrees none n h = tt
conflicts-Agrees (some m) n h = ground arith

Agrees-conflicts : (o : Option ℕ) (n : ℕ) → Agrees o n → conflicts o n ≡ false
Agrees-conflicts none n h = refl
Agrees-conflicts (some m) n h = ground arith

set_length-Settled :
    (p : Parser) (text : Bytes) (o : Option ℕ)
    → 0 < length text
    → accumulate 10 dec_digit 0 text ≡ o
    → Settled p text (set_length p o)
set_length-Settled p text none l h =
    inr (λ q. let k = Writes-accumulate text q.0 q.1.0 q.1.1 in cc, refl)
set_length-Settled p text (some v) l h =
    let w = accumulate-Writes text v l h in
    elim (Bool-cases (conflicts p.content_length v)) [
      | inl e ↦
          let no : ¬ ((n : ℕ) × Accepted p text n) = λ q.
            let same : q.0 ≡ v = let k = Writes-accumulate text q.0 q.1.0 q.1.1 in cc in
            let f =
              Agrees-conflicts p.content_length v (subst (Agrees p.content_length) same q.1.2) in
            cc in
          inr (no, rw e refl)
      | inr e ↦ inl (v, (w.0, w.1, conflicts-Agrees p.content_length v e), rw e refl)
    ]

-- A Content-Length without a digit is refused.
no_digits-Settled : (p : Parser) → ¬ ((n : ℕ) × Accepted p [] n)
unfolding ascii
no_digits-Settled p (n, (([], d, l, e, g), m, a)) = absurd (omega (arith, l))
no_digits-Settled p (n, ((c ∷ cs, d, l, e, g), m, a)) = cc

header_value :
    (p : Parser) (text : Bytes) → Settled p text (handle_header p (codes "Content-Length") text)
unfolding handle_header equal_nocase
header_value p [] = inr (no_digits-Settled p, refl)
header_value p (c ∷ cs) =
    let z : (length (c ∷ cs) == 0) ≡ false = ground arith in
    simp z (set_length-Settled p (c ∷ cs) (accumulate 10 dec_digit 0 (c ∷ cs)) (omega arith) refl)

unfoldable pub spaces : ℕ → Bytes
spaces zero = []
spaces (suc k) = b' ' ∷ spaces k

-- The text does not start with a space.
abbrev pub Unspaced : Bytes → Type 0
Unspaced [] = Unit
Unspaced (c ∷ cs) = (c == b' ') ≡ false

skip_spaces-spaces : (k : ℕ) (text : Bytes) → Unspaced text → skip_spaces (spaces k ++ text) ≡ text
unfolding skip_spaces spaces
skip_spaces-spaces zero [] h = refl
skip_spaces-spaces zero (c ∷ cs) h = rw h refl
skip_spaces-spaces (suc k) text h = skip_spaces-spaces k text h

-- The header line of a value behind spaces.
abbrev pub content_length_line : ℕ → Bytes → Bytes
content_length_line k text = codes "Content-Length:" ++ (spaces k ++ text)

-- A header line of Content-Length, a colon, spaces and a value that does not start with one says
-- OI_OK and sets the length to the number of the value, if that is one digit or more, of a number
-- of at most 2^40, and no other length has been set before; in every other case it says
-- OI_ERR_PARSE and changes only the state, to the one for errors.
pub handle_header_line-Settled :
    (destroys : List ℕ → Bytes → Bool) (p : Parser) (k : ℕ) (text : Bytes)
    → p.line ≡ content_length_line k text
    → Unspaced text
    → Settled p text (handle_header_line destroys p)
unfolding handle_header_line before
handle_header_line-Settled destroys p k text e u =
    let step : handle_header_line destroys p ≡ handle_header p (codes "Content-Length") text =
      let z : (length (content_length_line k text) == 0) ≡ false = ground arith in
      let w : leb (length (content_length_line k text)) 14 ≡ false = ground arith in
      rw e (simp (z, w, skip_spaces-spaces k text u) refl) in
    subst (Settled p text) (sym step) (header_value p text)
