-- ===== src/Editor/Moves.antt =====
-- The cursor moves of the editor are those of the zipper.
use oi_c.Prelude.{
  ℕ, ◌+◌, ◌≡◌, refl, List, [], ◌∷◌, length, length-append, arith, sym, ap, ◌∙◌, ◌≤◌, ◌<◌,
  append_assoc,
}
use oi_c.Status.{Status, ok, val}
use oi_c.Utf8.{next_boundary, previous_boundary}
use oi_c.Utf8.Encode.{emit_utf8, emit_all}
use oi_c.Editor.{Editor, move_left, move_right}
use oi_c.Editor.Zipper.{
  Zipper, left_of, right_of, emit_before, Shows, cursor-le, text_before, cursor_pos, previous_is,
  text_after, cursor-lt, next_is, cursor_zero, cursor_end,
}

-- An operation says OI_OK, and the editor then shows `z`.
abbrev pub Yields : Status × Editor → Zipper → Type 0
Yields r z = (r.0 ≡ ok) × Shows r.1 z

module _ (e : Editor) where
  move_left_at :
      (o : ℕ)
      → 0 < e.cursor
      → e.cursor ≤ length e.text
      → previous_boundary e.text e.cursor ≡ val o
      → move_left e ≡ (ok, record e { cursor = o })
  unfolding move_left
  move_left_at o p l h = ground arith

  move_left_first : e.cursor ≡ 0 → move_left e ≡ (ok, e)
  unfolding move_left
  move_left_first h = ground arith

  move_right_at :
      (o : ℕ)
      → e.cursor < length e.text
      → next_boundary e.text e.cursor ≡ val o
      → move_right e ≡ (ok, record e { cursor = o })
  unfolding move_right
  move_right_at o l h = ground arith

  move_right_last : e.cursor ≡ length e.text → move_right e ≡ (ok, e)
  unfolding move_right
  move_right_last h = ground arith

move_left_go :
    (e : Editor) (before after : List ℕ)
    → Shows e (record { before = before; after = after })
    → Yields (move_left e) (left_of (record { before = before; after = after }))
move_left_go e [] after s = rw (move_left_first e (cursor_zero s)) (refl, s)
move_left_go e (c ∷ cs) after s =
    rw (move_left_at e _ (cursor_pos s) (cursor-le s) (previous_is s)) (
      refl,
      record {
        scalars_before = s.scalars_before.1;
        scalars_after = (s.scalars_before.0, s.scalars_after);
        text_is = unfold emit_all in text_before s;
        cursor_is = refl;
      },
    )

move_right_go :
    (e : Editor) (before after : List ℕ)
    → Shows e (record { before = before; after = after })
    → Yields (move_right e) (right_of (record { before = before; after = after }))
move_right_go e before [] s = rw (move_right_last e (cursor_end s)) (refl, s)
move_right_go e before (c ∷ cs) s = rw (move_right_at e _ (cursor-lt s) (next_is s)) (
  refl,
  record {
    scalars_before = (s.scalars_after.0, s.scalars_before);
    scalars_after = s.scalars_after.1;
    text_is =
        unfold emit_before in
        (text_after s ∙ sym (append_assoc (emit_before before) (emit_utf8 c) (emit_all cs)));
    cursor_is =
        unfold emit_before in
        (ap (λ k. k + length (emit_utf8 c)) s.cursor_is
          ∙ sym (length-append (emit_before before) (emit_utf8 c)));
  },
)

-- From an editor that shows a sequence of characters with a cursor, moving left and moving right
-- say OI_OK and move the cursor by one whole character, or leave it at the end of the text that
-- it is at.
pub move_refines :
    (e : Editor) (z : Zipper)
    → Shows e z
    → Yields (move_left e) (left_of z) × Yields (move_right e) (right_of z)
move_refines e z s = (move_left_go e z.before z.after s, move_right_go e z.before z.after s)
