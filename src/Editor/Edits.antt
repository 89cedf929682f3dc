-- ===== src/Editor/Edits.antt =====
-- Deleting and inserting are those of the zipper, and a refused insertion changes nothing.
use oi_c.Prelude.{
  ℕ, ◌+◌, ◌≡◌, refl, List, [], ◌∷◌, ◌++◌, length, length-append, arith, sym, ap, ◌∙◌, ◌≤◌, ◌<◌,
  append_assoc, take, drop, take-append, drop-append,
}
use oi_c.Status.{ok, val}
use oi_c.Utf8.{next_boundary, previous_boundary}
use oi_c.Utf8.Encode.{emit_utf8, emit_all}
use oi_c.Editor.{Editor, backspace, delete}
use oi_c.Editor.Moves.{Yields}
use oi_c.Editor.Zipper.{
  Zipper, erase_left, erase_right, emit_before, Shows, cursor-le, text_before, cursor_pos,
  previous_is, text_after, cursor-lt, next_is, cursor_zero, cursor_end,
}

module _ (e : Editor) where
  backspace_at :
      (o : ℕ)
      → 0 < e.cursor
      → e.cursor ≤ length e.text
      → previous_boundary e.text e.cursor ≡ val o
      → backspace e ≡ (ok, record e { text = take o e.text ++ drop e.cursor e.text; cursor = o })
  unfolding backspace
  backspace_at o p l h = ground arith

  backspace_first : e.cursor ≡ 0 → backspace e ≡ (ok, e)
  unfolding backspace
  backspace_first h = ground arith

  delete_at :
      (o : ℕ)
      → e.cursor < length e.text
      → next_boundary e.text e.cursor ≡ val o
      → delete e ≡ (ok, record e { text = take e.cursor e.text ++ drop o e.text })
  unfolding delete
  delete_at o l h = ground arith

  delete_last : e.cursor ≡ length e.text → delete e ≡ (ok, e)
  unfolding delete
  delete_last h = ground arith

-- The two parts of the text, cut at the cursor.
pub take_cursor :
    {e : Editor} {z : Zipper} → Shows e z → take e.cursor e.text ≡ emit_before z.before
take_cursor {e} {z} s =
    ap (take e.cursor) s.text_is ∙ take-append e.cursor (emit_before z.before) _ s.cursor_is

pub drop_cursor : {e : Editor} {z : Zipper} → Shows e z → drop e.cursor e.text ≡ emit_all z.after
drop_cursor {e} {z} s =
    ap (drop e.cursor) s.text_is ∙ drop-append e.cursor (emit_before z.before) _ s.cursor_is

backspace_go :
    (e : Editor) (before after : List ℕ)
    → Shows e (record { before = before; after = after })
    → Yields (backspace e) (erase_left (record { before = before; after = after }))
backspace_go e [] after s = rw (backspace_first e (cursor_zero s)) (refl, s)
backspace_go e (c ∷ cs) after s =
    rw (backspace_at e _ (cursor_pos s) (cursor-le s) (previous_is s)) (
      refl,
      record {
        scalars_before = s.scalars_before.1;
        scalars_after = s.scalars_after;
        text_is =
            ap (λ t. take (length (emit_before cs)) t ++ drop e.cursor e.text) (text_before s)
            ∙ ap (λ t. t ++ drop e.cursor e.text) (take-append _ (emit_before cs) _ refl)
            ∙ ap (◌++◌ (emit_before cs)) (drop_cursor s);
        cursor_is = refl;
      },
    )

delete_go :
    (e : Editor) (before after : List ℕ)
    → Shows e (record { before = before; after = after })
    → Yields (delete e) (erase_right (record { before = before; after = after }))
delete_go e before [] s = rw (delete_last e (cursor_end s)) (refl, s)
delete_go e before (c ∷ cs) s = rw (delete_at e _ (cursor-lt s) (next_is s)) (
  refl,
  record {
    scalars_before = s.scalars_before;
    scalars_after = s.scalars_after.1;
    text_is =
        ap (λ t. t ++ drop (e.cursor + length (emit_utf8 c)) e.text) (take_cursor s)
        ∙ ap (◌++◌ (emit_before before)) (
            ap (drop _)
              (text_after s ∙ sym (append_assoc (emit_before before) (emit_utf8 c) (emit_all cs)))
            ∙ drop-append _ (emit_before before ++ emit_utf8 c) (emit_all cs)
                (omega (arith, s.cursor_is, length-append (emit_before before) (emit_utf8 c))));
    cursor_is = s.cursor_is;
  },
)

-- From an editor that shows a sequence of characters with a cursor, backspace says OI_OK and
-- erases the character before the cursor, delete says OI_OK and erases the one after it; where
-- there is none nothing changes.
pub erase_refines :
    (e : Editor) (z : Zipper)
    → Shows e z
    → Yields (backspace e) (erase_left z) × Yields (delete e) (erase_right z)
erase_refines e z s = (backspace_go e z.before z.after s, delete_go e z.before z.after s)
