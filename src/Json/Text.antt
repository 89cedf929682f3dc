-- ===== src/Json/Text.antt =====
-- src/json_parse.c: what a string in quotes is read as, with memory at hand.
use oi_c.Prelude.{
  ℕ, ◌+◌, ◌*◌, ◌/◌, ◌%◌, ◌≤◌, ◌<◌, ◌≡◌, ◌⊎◌, inl, inr, refl, sym, ap, subst, Bool, true, false,
  List, [], ◌∷◌, ◌++◌, append_assoc, append-nil, ltb, leb, ◌==◌, within, length, length-append,
  Bytes, size_max, Bool-cases, some, arith,
}
use oi_c.Bytebuf.{Growth, grown, overflow, unfinished, grow}
use oi_c.Bytebuf.Laws.{Ends, grow-Ends}
use oi_c.Http.{hex_digit}
use oi_c.Json.Attach.{Plenty, block_size, HasCap}
use oi_c.Json.Escapes.{escaped_all-cons}
use oi_c.Json.Parser.{step_in}
use oi_c.Json.State.{
  Memory, State, in_string, in_escape, in_unicode, Frame, Parser, str_buf_grown, str_buf_reserve,
  str_buf_append_bytes,
}
use oi_c.Json.Steps.{Goes, none-Goes, append-Goes, one-Goes, step-Goes}
use oi_c.Json.Strings.{
  mapped, handle_string_byte, handle_string_escape_byte, handle_string_unicode_byte, add_hex,
  finish_unicode,
}
use oi_c.Json.Walk.{escaped_all}
use oi_c.Json.Writer.{escaped, hex_char}
use oi_c.Status.{ok}
use oi_c.Utf8.Encode.{emit_utf8}

module _ {N : Type 0} where
  -- The parser inside a string's quotes, with what it has read of it.
  pub record Inside (s : State) (key : Bool) (fs : List (Frame N)) (t : Bytes) (p : Parser N)
      : Type 0 where
    pub in_state : p.state ≡ s
    pub stack : p.frames ≡ fs
    pub read : p.text ≡ t
    pub for_key : p.parsing_key ≡ key
    pub whole : p.pending_high_surrogate ≡ false
    pub cap : HasCap p

-- A string that the buffer can hold.
abbrev pub Holds : Bytes → Type 0
Holds t = length t < block_size

-- How the writer puts a byte: as it is, by a letter, or by its number.
abbrev IsPlain : ℕ → Type 0
IsPlain c = ((c == b'"') ≡ false) × ((c == 92) ≡ false) × (ltb c 32 ≡ false) × (escaped c ≡ c ∷ [])

abbrev IsLetter : ℕ → Type 0
IsLetter c = (l : ℕ) × (escaped c ≡ 92 ∷ l ∷ []) × (mapped l ≡ some c) × ((l == b'u') ≡ false)

abbrev IsCode : ℕ → Type 0
IsCode c = (c < 32) × (escaped c ≡ 92 ∷ b'u' ∷ 48 ∷ 48 ∷ hex_char (c / 16) ∷ hex_char (c % 16) ∷ [])

letter :
    (c l n : ℕ)
    → c ≡ n
    → escaped n ≡ 92 ∷ l ∷ []
    → mapped l ≡ some n
    → (l == b'u') ≡ false
    → IsPlain c ⊎ (IsLetter c ⊎ IsCode c)
letter c l n e a b d = inr (inl (l, (rw e a), (rw e b), d))

escaped-cases : (c : ℕ) → IsPlain c ⊎ (IsLetter c ⊎ IsCode c)
unfolding escaped mapped
escaped-cases c = elim (Bool-cases (c == 34)) [
  | inl e ↦ letter c 34 34 (ground arith) refl refl refl
  | inr e34 ↦ elim (Bool-cases (c == 92)) [
    | inl e ↦ letter c 92 92 (ground arith) refl refl refl
    | inr e92 ↦ elim (Bool-cases (c == 8)) [
      | inl e ↦ letter c b'b' 8 (ground arith) refl refl refl
      | inr e8 ↦ elim (Bool-cases (c == 12)) [
        | inl e ↦ letter c b'f' 12 (ground arith) refl refl refl
        | inr e12 ↦ elim (Bool-cases (c == 10)) [
          | inl e ↦ letter c b'n' 10 (ground arith) refl refl refl
          | inr e10 ↦ elim (Bool-cases (c == 13)) [
            | inl e ↦ letter c b'r' 13 (ground arith) refl refl refl
            | inr e13 ↦ elim (Bool-cases (c == 9)) [
              | inl e ↦ letter c b't' 9 (ground arith) refl refl refl
              | inr e9 ↦ elim (Bool-cases (ltb c 32)) [
                | inl e ↦ inr (inr (ground arith, (simp (e34, e92, e8, e12, e10, e13, e9, e) refl)))
                | inr e ↦ inl (e34, e92, e, (simp (e34, e92, e8, e12, e10, e13, e9, e) refl))
              ]
            ]
          ]
        ]
      ]
    ]
  ]
]

-- The reader's digit of a hexadecimal character.
hex_digit-hex_char : (d : ℕ) → d < 16 → hex_digit (hex_char d) ≡ some d
unfolding hex_digit
hex_digit-hex_char d h = elim (Bool-cases (ltb d 10)) [
  | inl e ↦ ground arith
  | inr e ↦ ground arith
]

module _ {N : Type 0} (grants : Memory → ℕ → Bool) (plenty : Plenty grants) where
  str_buf_grown_ok :
      (p : Parser N) (needed : ℕ) (g : Growth)
      → needed ≤ size_max / 2
      → 0 < needed
      → Ends needed g
      → (c : ℕ) × (str_buf_grown grants p g ≡ (ok, record p { str_cap = c }))
        × (0 < c)
        × (c ≤ size_max)
  str_buf_grown_ok p needed (grown c) h z e =
      (c, (rw (plenty.from_heap c) refl), omega (arith, e.0), e.1)
  str_buf_grown_ok p needed overflow h z e = absurd (omega arith)
  str_buf_grown_ok p needed unfinished h z e = absurd e

  str_buf_reserve_ok :
      (p : Parser N) (n : ℕ)
      → HasCap p
      → length p.text + n ≤ size_max / 2
      → 0 < n
      → (c : ℕ) × (str_buf_reserve grants p n ≡ (ok, record p { str_cap = c }))
        × (0 < c)
        × (c ≤ size_max)
  unfolding str_buf_reserve
  str_buf_reserve_ok p n k h z =
      let needed : ℕ = length p.text + n in
      let t : Ends needed (grow needed p.str_cap needed) =
        grow-Ends needed p.str_cap needed k.0 k.1 (omega arith) in
      let r = str_buf_grown_ok p needed (grow needed p.str_cap needed) h (omega arith) t in
      elim (Bool-cases (leb needed p.str_cap)) [
        | inl e ↦ (p.str_cap, ground arith, k.0, k.1)
        | inr e ↦ (r.0, ground (arith, r.1), r.2, r.3)
      ]

  longer :
      {key : Bool} {fs : List (Frame N)} {t : Bytes} (p : Parser N) (bytes : Bytes) (c : ℕ)
      → Inside in_string key fs t p
      → 0 < c
      → c ≤ size_max
      → Inside in_string key fs (t ++ bytes) (record p { text = p.text ++ bytes; str_cap = c })
  longer p bytes c i a b = record {
    in_state = i.in_state;
    stack = i.stack;
    read = ap (λ x. x ++ bytes) i.read;
    for_key = i.for_key;
    whole = i.whole;
    cap = (a, b);
  }

  pub append_bytes-Inside :
      {key : Bool} {fs : List (Frame N)} {t : Bytes} (p : Parser N) (bytes : Bytes)
      → Inside in_string key fs t p
      → Holds (t ++ bytes)
      → 0 < length bytes
      → let r = str_buf_append_bytes grants p bytes in
        (r.0 ≡ ok) × Inside in_string key fs (t ++ bytes) r.1
  unfolding str_buf_append_bytes
  append_bytes-Inside {key = key} {fs = fs} {t = t} p bytes i h z =
      let r =
        str_buf_reserve_ok p (length bytes) i.cap
          (omega (arith, length-append t bytes, ap length i.read)) z in
      rw r.1 (refl, longer p bytes r.0 i r.2 r.3)

  -- A byte that stands for itself.
  plain-Goes :
      {key : Bool} {fs : List (Frame N)} {t : Bytes} (strtod : Bytes → N × ℕ) (p : Parser N) (c : ℕ)
      → Inside in_string key fs t p
      → Holds (t ++ (c ∷ []))
      → (c == b'"') ≡ false
      → (c == 92) ≡ false
      → ltb c 32 ≡ false
      → Goes strtod grants p (c ∷ []) (Inside in_string key fs (t ++ (c ∷ [])))
  unfolding step_in handle_string_byte
  plain-Goes strtod p c i h a b d =
      let r = append_bytes-Inside p (c ∷ []) i h (omega arith) in
      one-Goes strtod grants p c in_string i.in_state (simp (a, b, d, i.whole) r.0) refl
        (simp (a, b, d, i.whole) r.1)

  -- A backslash and a letter.
  backslash-Goes :
      {key : Bool} {fs : List (Frame N)} {t : Bytes} (strtod : Bytes → N × ℕ) (p : Parser N)
      → Inside in_string key fs t p
      → Goes strtod grants p (92 ∷ []) (Inside in_escape key fs t)
  unfolding step_in handle_string_byte
  backslash-Goes strtod p i = one-Goes strtod grants p 92 in_string i.in_state refl refl (record {
    in_state = refl;
    stack = i.stack;
    read = i.read;
    for_key = i.for_key;
    whole = i.whole;
    cap = i.cap;
  })

  letter-Goes :
      {key : Bool} {fs : List (Frame N)} {t : Bytes} (strtod : Bytes → N × ℕ) (p : Parser N)
      (l m : ℕ)
      → Inside in_escape key fs t p
      → Holds (t ++ (m ∷ []))
      → mapped l ≡ some m
      → (l == b'u') ≡ false
      → Goes strtod grants p (l ∷ []) (Inside in_string key fs (t ++ (m ∷ [])))
  unfolding step_in handle_string_escape_byte
  letter-Goes {key = key} {fs = fs} {t = t} strtod p l m i h e u =
      let q : Parser N = record p { state = in_string } in
      let j : Inside in_string key fs t q = record {
        in_state = refl;
        stack = i.stack;
        read = i.read;
        for_key = i.for_key;
        whole = i.whole;
        cap = i.cap;
      } in
      let r = append_bytes-Inside q (m ∷ []) j h (omega arith) in
      step-Goes strtod grants p l in_escape (str_buf_append_bytes grants q (m ∷ [])) i.in_state
        (simp (i.whole, u, e) refl) r

  -- The number of a byte, with the digits read so far.
  record Digits (v k : ℕ) (key : Bool) (fs : List (Frame N)) (t : Bytes) (p : Parser N)
      : Type 0 where
    inside : Inside in_unicode key fs t p
    so_far : p.unicode_value ≡ v
    digits_read : p.unicode_hex_count ≡ k

  u-Goes :
      {key : Bool} {fs : List (Frame N)} {t : Bytes} (strtod : Bytes → N × ℕ) (p : Parser N)
      → Inside in_escape key fs t p
      → Goes strtod grants p (b'u' ∷ []) (Digits 0 0 key fs t)
  unfolding step_in handle_string_escape_byte
  u-Goes strtod p i =
      step-Goes strtod grants p b'u' in_escape
        (ok, record p { state = in_unicode; unicode_value = 0; unicode_hex_count = 0 }) i.in_state
        (simp i.whole refl)
        (
          refl,
          record {
            inside = record {
              in_state = refl;
              stack = i.stack;
              read = i.read;
              for_key = i.for_key;
              whole = i.whole;
              cap = i.cap;
            };
            so_far = refl;
            digits_read = refl;
          },
        )

  digit-Goes :
      {key : Bool} {fs : List (Frame N)} {t : Bytes} (strtod : Bytes → N × ℕ) (p : Parser N)
      (v k d c : ℕ)
      → Digits v k key fs t p
      → hex_digit c ≡ some d
      → ltb (k + 1) 4 ≡ true
      → Goes strtod grants p (c ∷ []) (Digits (v * 16 + d) (k + 1) key fs t)
  unfolding step_in handle_string_unicode_byte add_hex
  digit-Goes strtod p v k d c i e l =
      let j = i.inside in
      step-Goes strtod grants p c in_unicode
        (
          ok,
          record p {
            unicode_value = p.unicode_value * 16 + d;
            unicode_hex_count = p.unicode_hex_count + 1;
          },
        )
        j.in_state
        (let l' : ltb (p.unicode_hex_count + 1) 4 ≡ true = rw i.digits_read l in simp (e, l') refl)
        (
          refl,
          record {
            inside = record {
              in_state = j.in_state;
              stack = j.stack;
              read = j.read;
              for_key = j.for_key;
              whole = j.whole;
              cap = j.cap;
            };
            so_far = ap (λ x. x * 16 + d) i.so_far;
            digits_read = ap (λ x. x + 1) i.digits_read;
          },
        )

  last-Goes :
      {key : Bool} {fs : List (Frame N)} {t : Bytes} (strtod : Bytes → N × ℕ) (p : Parser N)
      (v d c : ℕ)
      → Digits v 3 key fs t p
      → hex_digit c ≡ some d
      → v * 16 + d < 128
      → Holds (t ++ ((v * 16 + d) ∷ []))
      → Goes strtod grants p (c ∷ []) (Inside in_string key fs (t ++ ((v * 16 + d) ∷ [])))
  unfolding step_in handle_string_unicode_byte add_hex finish_unicode emit_utf8
  last-Goes {key = key} {fs = fs} {t = t} strtod p v d c i e l h =
      let j = i.inside in
      let cp : ℕ = p.unicode_value * 16 + d in
      let q : Parser N = record p {
        state = in_string;
        unicode_value = cp;
        unicode_hex_count = p.unicode_hex_count + 1;
      } in
      let same : cp ≡ v * 16 + d = ap (λ x. x * 16 + d) i.so_far in
      let small : cp < 128 = rw same l in
      let k : Inside in_string key fs t q = record {
        in_state = refl;
        stack = j.stack;
        read = j.read;
        for_key = j.for_key;
        whole = j.whole;
        cap = j.cap;
      } in
      let r = append_bytes-Inside q (cp ∷ []) k (rw same h) (omega arith) in
      let n1 : ltb (p.unicode_hex_count + 1) 4 ≡ false = rw i.digits_read refl in
      let n2 : within 55296 56319 cp ≡ false = ground arith in
      let n3 : within 56320 57343 cp ≡ false = ground arith in
      let n4 : leb cp 0x7f ≡ true = ground arith in
      step-Goes strtod grants p c in_unicode (str_buf_append_bytes grants q (cp ∷ [])) j.in_state
        (simp (e, n1, j.whole, n2, n3, n4) refl)
        (
          r.0,
          subst
              (λ x.
                Inside in_string key fs (t ++ (x ∷ [])) (str_buf_append_bytes grants q (cp ∷ [])).1)
              same r.1,
        )

  code-Goes :
      {key : Bool} {fs : List (Frame N)} {t : Bytes} (strtod : Bytes → N × ℕ) (p : Parser N) (c : ℕ)
      → c < 32
      → Inside in_string key fs t p
      → Holds (t ++ (c ∷ []))
      → Goes strtod grants p
          (92 ∷ b'u' ∷ 48 ∷ 48 ∷ hex_char (c / 16) ∷ hex_char (c % 16) ∷ [])
          (Inside in_string key fs (t ++ (c ∷ [])))
  code-Goes {key = key} {fs = fs} {t = t} strtod p c l i h =
      let e : (0 * 16 + c / 16) * 16 + c % 16 ≡ c = omega arith in
      let zero_digit : hex_digit 48 ≡ some 0 = hex_digit-hex_char 0 (omega arith) in
      append-Goes strtod grants p (92 ∷ []) _ (backslash-Goes strtod p i) λ p1 i1.
        append-Goes strtod grants p1 (b'u' ∷ []) _ (u-Goes strtod p1 i1) λ p2 i2.
          append-Goes strtod grants p2 (48 ∷ []) _
            (digit-Goes strtod p2 0 0 0 48 i2 zero_digit refl)
            λ p3 i3.
              append-Goes strtod grants p3 (48 ∷ []) _
                (digit-Goes strtod p3 0 1 0 48 i3 zero_digit refl)
                λ p4 i4.
                  append-Goes strtod grants p4 (hex_char (c / 16) ∷ []) _
                    (digit-Goes strtod p4 0 2 (c / 16) (hex_char (c / 16)) i4
                      (hex_digit-hex_char (c / 16) (omega arith)) refl)
                    λ p5 i5.
                      subst
                        (λ x.
                          Goes strtod grants p5 (hex_char (c % 16) ∷ [])
                            (Inside in_string key fs (t ++ (x ∷ []))))
                        e
                        (last-Goes strtod p5 (0 * 16 + c / 16) (c % 16) (hex_char (c % 16)) i5
                          (hex_digit-hex_char (c % 16) (omega arith)) (omega arith) (rw e h))

  escaped-Goes :
      {key : Bool} {fs : List (Frame N)} {t : Bytes} (strtod : Bytes → N × ℕ) (p : Parser N) (c : ℕ)
      → Inside in_string key fs t p
      → Holds (t ++ (c ∷ []))
      → Goes strtod grants p (escaped c) (Inside in_string key fs (t ++ (c ∷ [])))
  escaped-Goes strtod p c i h = elim (escaped-cases c) [
    | inl a ↦ rw a.3 (plain-Goes strtod p c i h a.0 a.1 a.2)
    | inr b ↦ elim b [
      | inl a ↦ rw a.1 (
          append-Goes strtod grants p (92 ∷ []) _ (backslash-Goes strtod p i)
            λ q j. letter-Goes strtod q a.0 c j h a.2 a.3)
      | inr a ↦ rw a.1 (code-Goes strtod p c a.0 i h)
    ]
  ]

  -- The reader takes the writer's escapes for the bytes that they stand for.
  pub escaped_all-Goes :
      {key : Bool} {fs : List (Frame N)} (strtod : Bytes → N × ℕ) (s t : Bytes) (p : Parser N)
      → Inside in_string key fs t p
      → Holds (t ++ s)
      → Goes strtod grants p (escaped_all s) (Inside in_string key fs (t ++ s))
  unfolding escaped_all
  escaped_all-Goes {key = key} {fs = fs} strtod [] t p i h =
      subst (λ x. Goes strtod grants p [] (Inside in_string key fs x)) (sym (append-nil t))
        (none-Goes strtod grants p i)
  escaped_all-Goes {key = key} {fs = fs} strtod (c ∷ cs) t p i h =
      let e : (t ++ (c ∷ [])) ++ cs ≡ t ++ (c ∷ cs) = append_assoc t (c ∷ []) cs in
      let room : Holds ((t ++ (c ∷ [])) ++ cs) = subst Holds (sym e) h in
      subst (λ x. Goes strtod grants p x (Inside in_string key fs (t ++ (c ∷ cs))))
        (sym (escaped_all-cons c cs))
        (append-Goes strtod grants p (escaped c) (escaped_all cs)
          (escaped-Goes strtod p c i (omega (arith, length-append (t ++ (c ∷ [])) cs)))
          λ q j.
            subst (λ x. Goes strtod grants q (escaped_all cs) (Inside in_string key fs x)) e
              (escaped_all-Goes strtod cs (t ++ (c ∷ [])) q j room))
