-- ===== src/Sse/Split.antt =====
-- What a whole feed dispatches, said of the stream and not of the parser.
use oi_c.Prelude.{
  ℕ, ◌≡◌, inl, inr, refl, sym, ap, ◌∙◌, Bool, true, false, List, [], ◌∷◌, ◌++◌, ◌==◌, if◌then◌else◌,
  Bytes, Option, none, some, arith, append_assoc, append-nil, Bool-cases, All, All-append, subst,
}
use oi_c.Status.{Status, ok}
use oi_c.Sse.{Parser, line_append, payload, process_line, strip_cr, feed_byte, feed}

-- The complete lines of a stream, without their newlines, and the bytes behind the last newline.
pub record Lines : Type 0 where
  pub complete : List Bytes
  pub rest : Bytes

unfoldable pub cons_byte : ℕ → Lines → Lines
cons_byte c l = elim l.complete [
  | [] ↦ record { complete = []; rest = c ∷ l.rest }
  | x ∷ xs ↦ record { complete = (c ∷ x) ∷ xs; rest = l.rest }
]

unfoldable pub split : Bytes → Lines
split [] = record { complete = []; rest = [] }
split (c ∷ cs) =
    let l = split cs in
    if c == b'\n' then record { complete = [] ∷ l.complete; rest = l.rest } else cons_byte c l

-- The payloads of a sequence of lines.
abbrev pub keep : Option Bytes → List Bytes → List Bytes
keep none es = es
keep (some e) es = e ∷ es

unfoldable pub payloads : List Bytes → List Bytes
payloads [] = []
payloads (l ∷ ls) = keep (payload (strip_cr l)) (payloads ls)

abbrev pub NoNewline : Bytes → Type 0
NoNewline = All (λ c. (c == b'\n') ≡ false)

split-line :
    (line : Bytes) (c : ℕ) (cs : Bytes)
    → (c == b'\n') ≡ true
    → NoNewline line
    → split (line ++ (c ∷ cs))
      ≡ record { complete = line ∷ (split cs).complete; rest = (split cs).rest }
unfolding split cons_byte
split-line [] c cs e n = rw e
split-line (x ∷ line) c cs e (n, ns) = rw n (ap (cons_byte x) (split-line line c cs e ns))

split-rest : (line : Bytes) → NoNewline line → split line ≡ record { complete = []; rest = line }
unfolding split cons_byte
split-rest [] n = refl
split-rest (c ∷ line) (n, ns) = rw n (ap (cons_byte c) (split-rest line ns))

-- A client that never destroys the parser.
abbrev pub keeps_parser : List Bytes → Bool
keeps_parser es = false

pub feed_newline :
    (grants : ℕ → Bool) (p : Parser) (c : ℕ)
    → (c == b'\n') ≡ true
    → p.destroyed ≡ false
    → let r = feed_byte grants keeps_parser p c in
      (r.1.line ≡ [])
      × (r.1.destroyed ≡ false)
      × (r.1.events ≡ p.events ++ keep (payload (strip_cr p.line)) [])
unfolding feed_byte process_line
feed_newline grants p c e d = ground (arith, append-nil p.events)

feed_other :
    (grants : ℕ → Bool) (p : Parser) (c : ℕ)
    → (c == b'\n') ≡ false
    → p.destroyed ≡ false
    → let r = feed_byte grants keeps_parser p c in
      r.0 ≡ ok → (r.1.line ≡ p.line ++ (c ∷ [])) × (r.1.destroyed ≡ false) × (r.1.events ≡ p.events)
unfolding feed_byte line_append
feed_other grants p c n d h = ground arith

feed_step :
    (grants : ℕ → Bool) (p : Parser) (c : ℕ) (cs : Bytes)
    → (feed_byte grants keeps_parser p c).0 ≡ ok
    → (feed_byte grants keeps_parser p c).1.destroyed ≡ false
    → feed grants keeps_parser p (c ∷ cs)
      ≡ feed grants keeps_parser (feed_byte grants keeps_parser p c).1 cs
unfolding feed
feed_step grants p c cs h d = rw (h, d)

feed_first :
    (grants : ℕ → Bool) (p : Parser) (c : ℕ) (cs : Bytes)
    → (feed grants keeps_parser p (c ∷ cs)).0 ≡ ok
    → (feed_byte grants keeps_parser p c).0 ≡ ok
unfolding feed
feed_first grants p c cs h = ground arith

payloads-cons :
    (l : Bytes) (ls : List Bytes)
    → payloads (l ∷ ls) ≡ keep (payload (strip_cr l)) [] ++ payloads ls
unfolding payloads
payloads-cons l ls = ground arith

-- What a feed of `xs` has done, from the parser `p`.
abbrev pub Dispatched : Parser → Bytes → Status × Parser → Type 0
Dispatched p xs r =
    (r.1.events ≡ p.events ++ payloads (split (p.line ++ xs)).complete)
    × (r.1.line ≡ (split (p.line ++ xs)).rest)
    × (r.1.destroyed ≡ false)

-- From a live parser whose held line has no newline, where the callback lets the parser live, a
-- feed that says OI_OK has dispatched the payloads of all the lines that the bytes complete, in
-- order, and holds exactly the bytes behind the last newline.
pub feed-split :
    (grants : ℕ → Bool) (xs : Bytes) (p : Parser)
    → NoNewline p.line
    → p.destroyed ≡ false
    → (feed grants keeps_parser p xs).0 ≡ ok
    → Dispatched p xs (feed grants keeps_parser p xs)
feed-split grants [] p n d h =
    unfold feed payloads in
    rw (append-nil p.line, split-rest p.line n) (sym (append-nil p.events), refl, d)
feed-split grants (c ∷ cs) p n d h =
    let first = feed_first grants p c cs h in
    elim (Bool-cases (c == b'\n')) [
      | inl e ↦
          let (l, d', ev) = feed_newline grants p c e d in
          let q = (feed_byte grants keeps_parser p c).1 in
          let step = feed_step grants p c cs first d' in
          let (ea, la, da) =
            feed-split grants cs q (subst NoNewline (sym l) tt) d'
              (sym (ap (λ (r : Status × Parser). r.0) step) ∙ h) in
          let whole = sym (split-line p.line c cs e n) in
          let new = keep (payload (strip_cr p.line)) [] in
          subst (Dispatched p (c ∷ cs)) (sym step) (
            ea
                ∙ ap (λ t. t ++ payloads (split (q.line ++ cs)).complete) ev
                ∙ ap (λ t. (p.events ++ new) ++ payloads (split (t ++ cs)).complete) l
                ∙ append_assoc p.events new (payloads (split cs).complete)
                ∙ ap (◌++◌ p.events) (sym (payloads-cons p.line (split cs).complete))
                ∙ ap (λ (t : Lines). p.events ++ payloads t.complete) whole,
            la ∙ ap (λ t. (split (t ++ cs)).rest) l ∙ ap (λ (t : Lines). t.rest) whole,
            da,
          )
      | inr e ↦
          let (l, d', ev) = feed_other grants p c e d first in
          let q = (feed_byte grants keeps_parser p c).1 in
          let step = feed_step grants p c cs first d' in
          let n' =
            subst NoNewline (sym l)
              (All-append (λ c. (c == b'\n') ≡ false) p.line (c ∷ []) n (e, tt)) in
          let (ea, la, da) =
            feed-split grants cs q n' d' (sym (ap (λ (r : Status × Parser). r.0) step) ∙ h) in
          let line : q.line ++ cs ≡ p.line ++ (c ∷ cs) =
            ap (λ t. t ++ cs) l ∙ append_assoc p.line (c ∷ []) cs in
          subst (Dispatched p (c ∷ cs)) (sym step) (
            ea
                ∙ ap (λ t. t ++ payloads (split (q.line ++ cs)).complete) ev
                ∙ ap (λ t. p.events ++ payloads (split t).complete) line,
            la ∙ ap (λ t. (split t).rest) line,
            da,
          )
    ]
