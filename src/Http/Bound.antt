-- ===== src/Http/Bound.antt =====
-- The held line lies within its buffer, and the buffer within 8 KiB.
use oi_c.Prelude.{
  ◌*◌, ℕ, zero, suc, ◌+◌, ◌≤◌, ◌<◌, ◌≡◌, inl, inr, refl, Bool, true, false, List, [], ◌∷◌, ◌==◌,
  if◌then◌else◌, length, length-append, drop, Bytes, Option, none, some, arith, Bool-cases, subst,
}
use oi_c.Sse.{strip_cr}
use oi_c.Status.{Status, is_ok}
use oi_c.Http.{
  State, status_line, header_line, chunk_size_line, chunk_data_crlf, final_crlf, done, error,
  before, skip_spaces, resume, Parser, max_line, line_append, handle_status_line, after_headers,
  finish_headers, set_length, handle_header, handle_header_line, set_size, handle_chunk_size_line,
  handle_empty_line, handle_line, on_line_complete, line_round, body_round, round, feed_loop, feed,
  is_line_state, accumulate, dec_digit, hex_digit,
}

-- The buffer is left as it is.
abbrev Keeps : Parser → Parser → Type 0
Keeps p q = (q.line ≡ p.line) × (q.line_cap ≡ p.line_cap)

handle_status_line-Keeps : (p : Parser) → Keeps p (handle_status_line p).1
unfolding handle_status_line
handle_status_line-Keeps p = ground arith

set_length-Keeps : (p : Parser) (o : Option ℕ) → Keeps p (set_length p o).1
set_length-Keeps p none = (refl, refl)
set_length-Keeps p (some n) = ground arith

set_size-Keeps : (p : Parser) (o : Option ℕ) → Keeps p (set_size p o).1
set_size-Keeps p none = (refl, refl)
set_size-Keeps p (some n) = ground arith

handle_header-Keeps : (p : Parser) (name text : Bytes) → Keeps p (handle_header p name text).1
unfolding handle_header
handle_header-Keeps p name text =
    ground (arith, set_length-Keeps p (accumulate 10 dec_digit 0 text))

handle_chunk_size_line-Keeps : (p : Parser) → Keeps p (handle_chunk_size_line p).1
unfolding handle_chunk_size_line
handle_chunk_size_line-Keeps p =
    ground (arith, set_size-Keeps p (accumulate 16 hex_digit 0 (before b';' p.line)))

after_headers-Keeps : (b : Bool) (o : Option ℕ) (p : Parser) → Keeps p (after_headers b o p)
after_headers-Keeps true o p = (refl, refl)
after_headers-Keeps false none p = (refl, refl)
after_headers-Keeps false (some n) p = ground arith

handle_empty_line-Keeps : (s : State) (p : Parser) → Keeps p (handle_empty_line s p).1
unfolding handle_empty_line
handle_empty_line-Keeps s p = ground arith

module _ (destroys : List ℕ → Bytes → Bool) where
  finish_headers-Keeps : (p : Parser) → Keeps p (finish_headers destroys p).1
  unfolding finish_headers
  finish_headers-Keeps p = ground (arith, after_headers-Keeps p.is_chunked p.content_length p)

  handle_header_line-Keeps : (p : Parser) → Keeps p (handle_header_line destroys p).1
  unfolding handle_header_line
  handle_header_line-Keeps p = ground (
    arith,
    finish_headers-Keeps p,
    handle_header-Keeps p (before b':' p.line)
        (skip_spaces (drop (length (before b':' p.line) + 1) p.line)),
  )

  handle_line-Keeps : (s : State) (p : Parser) → Keeps p (handle_line destroys s p).1
  unfolding handle_line
  handle_line-Keeps status_line p = handle_status_line-Keeps p
  handle_line-Keeps header_line p = handle_header_line-Keeps p
  handle_line-Keeps chunk_size_line p = handle_chunk_size_line-Keeps p
  handle_line-Keeps chunk_data_crlf p = handle_empty_line-Keeps chunk_size_line p
  handle_line-Keeps final_crlf p = handle_empty_line-Keeps done p
  handle_line-Keeps _ p = (refl, refl)

-- The line is within its buffer, and the buffer, which is never empty, within the limit.
pub record IsValid (p : Parser) : Type 0 where
  pub fits : length p.line ≤ p.line_cap
  pub bounded : p.line_cap ≤ max_line
  pub alive : 0 < p.line_cap

line_append-IsValid :
    (grants : ℕ → Bool) (p : Parser) (c : ℕ) → IsValid p → IsValid (line_append grants p c).1
unfolding line_append
line_append-IsValid grants p c v = ground (arith, length-append p.line (c ∷ []))

strip_cr-le : (l : Bytes) → length (strip_cr l) ≤ length l
unfolding strip_cr
strip_cr-le [] = omega arith
strip_cr-le (x ∷ []) = ground arith
strip_cr-le (x ∷ y ∷ r) = omega (arith, strip_cr-le (y ∷ r))

stripped-IsValid : (p : Parser) → IsValid p → IsValid (record p { line = strip_cr p.line })
stripped-IsValid p v = record {
  fits = omega (arith, strip_cr-le p.line, v.fits);
  bounded = v.bounded;
  alive = v.alive;
}

-- The parser that a run of the loop leaves is valid.
LeavesValid : Option (Status × Parser) → Type 0
LeavesValid none = Unit
LeavesValid (some r) = IsValid r.1

resume-LeavesValid :
    (s : State) (a b on : Option (Status × Parser))
    → LeavesValid a
    → LeavesValid b
    → LeavesValid on
    → LeavesValid (resume s a b on)
resume-LeavesValid error a b on ha hb h = ha
resume-LeavesValid done a b on ha hb h = hb
resume-LeavesValid _ a b on ha hb h = h

if-LeavesValid :
    (c : Bool) (a b : Option (Status × Parser))
    → LeavesValid a
    → LeavesValid b
    → LeavesValid (if c then a else b)
if-LeavesValid true a b ha hb = ha
if-LeavesValid false a b ha hb = hb

module _ (grants : ℕ → Bool) (destroys : List ℕ → Bytes → Bool) where
  on_line_complete-IsValid : (p : Parser) → IsValid p → IsValid (on_line_complete destroys p).1
  unfolding on_line_complete
  on_line_complete-IsValid p v = ground (arith, handle_line-Keeps destroys p.state p)

  line_round-IsValid :
      (p : Parser) (c : ℕ) (cs : Bytes)
      → IsValid p
      → IsValid (line_round grants destroys p c cs).parser
  unfolding line_round
  line_round-IsValid p c cs v = elim (Bool-cases (c == b'\n')) [
    | inl e ↦
        rw e (on_line_complete-IsValid (record p { line = strip_cr p.line }) (stripped-IsValid p v))
    | inr e ↦ rw e (line_append-IsValid grants p c v)
  ]

  body_round-IsValid :
      (p : Parser) (xs : Bytes) → IsValid p → IsValid (body_round grants destroys p xs).parser
  unfolding body_round
  body_round-IsValid p xs v = ground arith

  round-IsValid :
      (p : Parser) (x : ℕ) (xs : Bytes) → IsValid p → IsValid (round grants destroys p x xs).parser
  unfolding round
  round-IsValid p x xs v = elim (Bool-cases (is_line_state p.state)) [
    | inl e ↦ rw e (line_round-IsValid p x xs v)
    | inr e ↦ rw e (body_round-IsValid p (x ∷ xs) v)
  ]

  feed_loop-LeavesValid :
      (f : ℕ) (p : Parser) (xs : Bytes) → IsValid p → LeavesValid (feed_loop grants destroys f p xs)
  unfolding feed_loop LeavesValid
  feed_loop-LeavesValid zero p [] v = v
  feed_loop-LeavesValid (suc f) p [] v = v
  feed_loop-LeavesValid zero p (x ∷ xs) v = tt
  feed_loop-LeavesValid (suc f) p (x ∷ xs) v =
      let next = round-IsValid p x xs v in
      resume-LeavesValid p.state _ _ _ v v (
        if-LeavesValid (round grants destroys p x xs).parser.destroyed _ _ next (
          if-LeavesValid (is_ok (round grants destroys p x xs).status) _ _
            (feed_loop-LeavesValid f (round grants destroys p x xs).parser
              (round grants destroys p x xs).rest next)
            next))

  -- A feed of the HTTP parser that starts with the held line within its buffer and the buffer,
  -- not empty, within 8 KiB leaves them so, whatever the bytes, the allocator and the callbacks
  -- do.
  pub feed_parser-IsValid :
      (p : Parser) (xs : Bytes) (r : Status × Parser)
      → IsValid p
      → feed grants destroys p xs ≡ some r
      → IsValid r.1
  unfolding feed LeavesValid
  feed_parser-IsValid p xs r v h =
      subst LeavesValid h (feed_loop-LeavesValid (3 * length xs + 3) p xs v)
