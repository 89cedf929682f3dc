-- ===== src/Sse/Bound.antt =====
-- The line buffer: its bound, and the streams that it does not refuse.
use oi_c.Prelude.{
  ℕ, suc, ◌≡◌, ◌⊎◌, inl, inr, ◌≤◌, ◌<◌, refl, sym, ap, ◌∙◌, Bool, true, false, List, [], ◌∷◌, ◌==◌,
  length, length-append, Bytes, Option, none, some, arith, subst,
}
use oi_c.Status.{ok}
use oi_c.Sse.{
  Parser, max_line, line_append, payload, process_line, dispatch, strip_cr, next_line, feed_byte,
  feed, doubled,
}
use oi_c.Sse.Split.{keeps_parser, feed_newline}

newline_ok :
    (grants : ℕ → Bool) (p : Parser) (c : ℕ)
    → (c == b'\n') ≡ true
    → (feed_byte grants keeps_parser p c).0 ≡ ok
unfolding feed_byte
newline_ok grants p c e = rw e

feed_byte_other :
    (grants : ℕ → Bool) (destroys : List Bytes → Bool) (p : Parser) (c : ℕ)
    → (c == b'\n') ≡ false
    → feed_byte grants destroys p c ≡ line_append grants p c
unfolding feed_byte
feed_byte_other grants destroys p c e = rw e

-- The line lies within its buffer, and the buffer within OI_SSE_MAX_LINE.
pub record IsValid (p : Parser) : Type 0 where
  pub fits : length p.line ≤ p.line_cap
  pub bounded : p.line_cap ≤ max_line
  pub alive : 0 < p.line_cap

line_append-IsValid :
    (grants : ℕ → Bool) (p : Parser) (c : ℕ) → IsValid p → IsValid (line_append grants p c).1
unfolding line_append
line_append-IsValid grants p c v = ground (arith, length-append p.line (c ∷ []))

length-strip_cr : (l : Bytes) → length (strip_cr l) ≤ length l
unfolding strip_cr
length-strip_cr [] = omega arith
length-strip_cr (x ∷ []) = ground arith
length-strip_cr (x ∷ y ∷ r) = omega (arith, length-strip_cr (y ∷ r))

dispatch-IsValid :
    (destroys : List Bytes → Bool) (p : Parser) (o : Option Bytes)
    → IsValid p
    → IsValid (next_line (dispatch destroys p o))
dispatch-IsValid destroys p none v = ground arith
dispatch-IsValid destroys p (some e) v = ground arith

feed_byte-IsValid :
    (grants : ℕ → Bool) (destroys : List Bytes → Bool) (p : Parser) (c : ℕ)
    → IsValid p
    → IsValid (feed_byte grants destroys p c).1
unfolding feed_byte process_line
feed_byte-IsValid grants destroys p c v = ground (
  arith,
  line_append-IsValid grants p c v,
  length-strip_cr p.line,
  dispatch-IsValid destroys (record p { line = strip_cr p.line }) (payload (strip_cr p.line)),
)

-- A feed keeps the held line within its buffer and the buffer within 1 MiB, whatever the bytes,
-- the allocator and the callback do.
pub feed-IsValid :
    (grants : ℕ → Bool) (destroys : List Bytes → Bool) (xs : Bytes) (p : Parser)
    → IsValid p
    → IsValid (feed grants destroys p xs).1
unfolding feed
feed-IsValid grants destroys [] p v = v
feed-IsValid grants destroys (c ∷ cs) p v = ground (
  arith,
  feed_byte-IsValid grants destroys p c v,
  feed-IsValid grants destroys cs (feed_byte grants destroys p c).1,
)

-- No line is longer than OI_SSE_MAX_LINE, where `k` bytes of the first one have been read.
abbrev pub ShortLines : ℕ → Bytes → Type 0
ShortLines k [] = Unit
ShortLines k (c ∷ cs) =
    (((c == b'\n') ≡ true) × ShortLines 0 cs)
    ⊎ (((c == b'\n') ≡ false) × (k < max_line) × ShortLines (suc k) cs)

module _ (grants : ℕ → Bool) (given : (n : ℕ) → grants n ≡ true) where
  line_append-ok :
      (p : Parser) (c : ℕ)
      → length p.line < max_line
      → ((line_append grants p c).0 ≡ ok)
        × (length (line_append grants p c).1.line ≡ suc (length p.line))
        × ((line_append grants p c).1.destroyed ≡ p.destroyed)
  unfolding line_append
  line_append-ok p c h = ground (arith, given (doubled p.line_cap), length-append p.line (c ∷ []))

  -- Where the allocator gives memory and the callback lets the parser live, a feed of a live
  -- parser says OI_OK if no line is longer than 1 MiB.
  pub feed-ok :
      (xs : Bytes) (p : Parser)
      → p.destroyed ≡ false
      → ShortLines (length p.line) xs
      → (feed grants keeps_parser p xs).0 ≡ ok
  unfolding feed
  feed-ok [] p d h = refl
  feed-ok (c ∷ cs) p d (inl (e, h)) =
      let (l, d', _) = feed_newline grants p c e d in
      let k = ap length l in
      ground (
        arith,
        newline_ok grants p c e,
        feed-ok cs (feed_byte grants keeps_parser p c).1 d'
            (subst (λ j. ShortLines j cs) (sym k) h),
      )
  feed-ok (c ∷ cs) p d (inr (e, k, h)) =
      let (o, l, d') = line_append-ok p c k in
      let b = feed_byte_other grants keeps_parser p c e in
      let ih =
        feed-ok cs (line_append grants p c).1 (d' ∙ d) (subst (λ j. ShortLines j cs) (sym l) h) in
      ground (arith, ih, b, o, d', d)
