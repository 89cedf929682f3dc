-- ===== src/Utf8/Boundary.antt =====
-- `next_boundary` and `previous_boundary` undo one another.
use oi_c.Prelude.{
  ℕ, zero, suc, ◌+◌, ◌-◌, ◌≤◌, ◌<◌, ◌≡◌, true, false, [], ◌++◌, arith, length, take, drop, Bytes,
  sym, ap, ◌∙◌, get_or, get_or-drop, take-append-drop, length-drop, append-nil, append_assoc,
}
use oi_c.Status.{val}
use oi_c.Utf8.Encode.{IsScalar, emit_utf8}
use oi_c.Utf8.RoundTrip.{sequence_length-emit_utf8}
use oi_c.Utf8.Sound.{sequence_length_sound, value_of}
use oi_c.Utf8.{sequence_length, is_continuation, next_boundary, previous_boundary, back}

-- An accepted text starts with the encoding of its first code point.
pub sequence_length-splits :
    (text : Bytes) (n : ℕ)
    → sequence_length text ≡ val n
    → (cp : ℕ) × IsScalar cp
      × (text ≡ emit_utf8 cp ++ drop n text)
      × (n ≡ length (emit_utf8 cp))
      × (n ≤ length text)
sequence_length-splits text n h =
    let e = sequence_length_sound text n h in
    (
      _,
      e.scalar,
      sym (take-append-drop n text) ∙ ap (λ p. p ++ drop n text) e.bytes,
      e.counted,
      e.within_text,
    )

-- Bytes behind a sequence do not change it.
pub sequence_length-append :
    (xs ys : Bytes) (n : ℕ) → sequence_length xs ≡ val n → sequence_length (xs ++ ys) ≡ val n
sequence_length-append xs ys n h =
    let (cp, s, e, c, _) = sequence_length-splits xs n h in
    ap (λ t. sequence_length (t ++ ys)) e
    ∙ ap sequence_length (append_assoc (emit_utf8 cp) (drop n xs) ys)
    ∙ sequence_length-emit_utf8 cp (drop n xs ++ ys) s
    ∙ ap val (sym c)

-- The sequence alone is accepted.
pub sequence_length-take :
    (xs : Bytes) (n : ℕ) → sequence_length xs ≡ val n → sequence_length (take n xs) ≡ val n
sequence_length-take xs n h =
    let e = sequence_length_sound xs n h in
    ap sequence_length (e.bytes ∙ sym (append-nil (emit_utf8 _)))
    ∙ sequence_length-emit_utf8 _ [] e.scalar
    ∙ ap val (sym e.counted)

-- The first byte of a sequence is no continuation byte, and the others are.
emit_utf8_lead :
    (cp : ℕ) (rest : Bytes)
    → IsScalar cp
    → is_continuation (get_or (emit_utf8 cp ++ rest) 0 0) ≡ false
unfolding emit_utf8 is_continuation
emit_utf8_lead cp rest h = ground arith

emit_utf8_tail :
    (cp : ℕ) (rest : Bytes) (i : ℕ)
    → IsScalar cp
    → suc i < length (emit_utf8 cp)
    → is_continuation (get_or (emit_utf8 cp ++ rest) (suc i) 0) ≡ true
unfolding emit_utf8 is_continuation
emit_utf8_tail cp rest zero h l = ground arith
emit_utf8_tail cp rest (suc zero) h l = ground arith
emit_utf8_tail cp rest (suc (suc zero)) h l = ground arith
emit_utf8_tail cp rest (suc (suc (suc i))) h l = ground arith

back_lead :
    (text : Bytes) (s k m : ℕ)
    → m ≡ s + k
    → is_continuation (get_or text s 0) ≡ false
    → ((i : ℕ) → i < k → is_continuation (get_or text (s + suc i) 0) ≡ true)
    → back text m ≡ s
unfolding back
back_lead text s zero zero e l t = omega arith
back_lead text s zero (suc m) e l t =
    let e' : suc m ≡ s = omega arith in rw (ap (λ j. is_continuation (get_or text j 0)) e' ∙ l) e'
back_lead text s (suc k) zero e l t = absurd (omega arith)
back_lead text s (suc k) (suc m) e l t =
    rw (ap (λ j. is_continuation (get_or text j 0)) e ∙ t k (omega arith))
      (back_lead text s k m (omega arith) l (λ i h. t i (omega arith)))

pub emit_utf8_pos : (cp : ℕ) → 0 < length (emit_utf8 cp)
unfolding emit_utf8
emit_utf8_pos cp = ground arith

-- A sequence has a byte at least, and lies within the text.
pub sequence_length_bounds :
    (text : Bytes) (n : ℕ) → sequence_length text ≡ val n → (0 < n) × (n ≤ length text)
sequence_length_bounds text n h =
    let e = sequence_length_sound text n h in
    (omega (arith, emit_utf8_pos (value_of text n), e.counted), e.within_text)

pub next_boundary_inv :
    (text : Bytes) (o o' : ℕ)
    → next_boundary text o ≡ val o'
    → (n : ℕ) × (sequence_length (drop o text) ≡ val n) × (o' ≡ o + n) × (o < length text)
unfolding next_boundary
next_boundary_inv text o o' h = ground arith

pub next_boundary_intro :
    (text : Bytes) (o n : ℕ)
    → sequence_length (drop o text) ≡ val n
    → o < length text
    → next_boundary text o ≡ val (o + n)
unfolding next_boundary
next_boundary_intro text o n h l = ground arith

pub previous_boundary_inv :
    (text : Bytes) (o o' : ℕ)
    → previous_boundary text o' ≡ val o
    → (sequence_length (take (o' - o) (drop o text)) ≡ val (o' - o)) × (o ≤ o') × (o' ≤ length text)
unfolding previous_boundary
previous_boundary_inv text o o' h = ground arith

pub previous_boundary_intro :
    (text : Bytes) (o o' : ℕ)
    → back text (o' - 1) ≡ o
    → sequence_length (take (o' - o) (drop o text)) ≡ val (o' - o)
    → o < o'
    → o' ≤ length text
    → previous_boundary text o' ≡ val o
unfolding previous_boundary
previous_boundary_intro text o o' b h l m = ground arith

-- The lead byte of a sequence at `o` is found from its last byte.
back_sequence :
    (text : Bytes) (o n : ℕ) → sequence_length (drop o text) ≡ val n → back text (o + n - 1) ≡ o
back_sequence text o n h =
    let (cp, s, e, c, _) = sequence_length-splits (drop o text) n h in
    let at = λ (i : ℕ).
      ap is_continuation (sym (ap (λ t. get_or t i 0) (sym e) ∙ get_or-drop o i text 0)) in
    let pos = sequence_length_bounds (drop o text) n h in
    back_lead text o (n - 1) (o + n - 1) (omega (arith, pos))
      (ap is_continuation (ap (λ j. get_or text j 0) (omega arith)) ∙ at 0 ∙ emit_utf8_lead cp _ s)
      (λ i l. at (suc i) ∙ emit_utf8_tail cp _ i s (omega (arith, c)))

-- If the boundary after an offset is found, the boundary before the one found is that offset.
pub previous_boundary-next_boundary :
    (text : Bytes) (o o' : ℕ) → next_boundary text o ≡ val o' → previous_boundary text o' ≡ val o
previous_boundary-next_boundary text o o' h =
    let (n, e, s, l) = next_boundary_inv text o o' h in
    let (pos, inside) = sequence_length_bounds (drop o text) n e in
    let len : n ≡ o' - o = omega arith in
    previous_boundary_intro text o o' (ap (λ j. back text (j - 1)) s ∙ back_sequence text o n e)
      (ap (λ j. sequence_length (take j (drop o text))) (sym len)
        ∙ sequence_length-take (drop o text) n e
        ∙ ap val len)
      (omega arith) (omega (arith, length-drop o text))

-- If the boundary before an offset is found, the boundary after the one found is that offset.
pub next_boundary-previous_boundary :
    (text : Bytes) (o o' : ℕ) → previous_boundary text o' ≡ val o → next_boundary text o ≡ val o'
next_boundary-previous_boundary text o o' h =
    let (e, le, l) = previous_boundary_inv text o o' h in
    let (pos, _) = sequence_length_bounds _ (o' - o) e in
    let whole = sequence_length-append _ (drop (o' - o) (drop o text)) (o' - o) e in
    next_boundary_intro text o (o' - o)
      (ap sequence_length (sym (take-append-drop (o' - o) (drop o text))) ∙ whole) (omega arith)
    ∙ ap val (omega arith)
