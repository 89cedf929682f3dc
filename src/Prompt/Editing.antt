-- ===== src/Prompt/Editing.antt =====
-- src/cli_prompt_state.c with src/cli_editor.c: the line stays a text with a cursor between characters.
use oi_c.Prelude.{
  ℕ, ◌+◌, ◌≤◌, ◌≡◌, inl, inr, refl, sym, ap, ◌∙◌, subst, Bool, List, [], ◌∷◌, length, length-append,
  Bytes, arith,
}
use oi_c.Editor.{
  Editor, max_bytes, at_boundary, clear, set, insert, move_left, move_right, backspace, delete,
  move_line_start, move_line_end,
}
use oi_c.Editor.Edits.{erase_refines}
use oi_c.Editor.Insert.{insert_refines, set_refines, empty_zipper}
use oi_c.Editor.Lines.{move_line_start_refines, move_line_end_refines}
use oi_c.Editor.Moves.{move_refines}
use oi_c.Editor.Zipper.{Zipper, Shows, emit_before, erase_left, erase_right, type_in}
use oi_c.Status.{Result, val, err}
use oi_c.Utf8.{next_boundary, previous_boundary}
use oi_c.Utf8.Encode.{emit_utf8, emit_all}

-- The editor holds at most 1 MiB of characters, with its cursor at one of the gaps between them.
abbrev pub EditorIsValid : Editor → Type 0
EditorIsValid e = ((z : Zipper) × Shows e z) × (length e.text ≤ max_bytes)

module _ (grants : ℕ → Bool) (e : Editor) (v : EditorIsValid e) where
  pub insert-EditorIsValid : (t : Bytes) → EditorIsValid (insert grants e t).1
  insert-EditorIsValid t = elim (insert_refines grants e v.0.0 t v.0.1 v.1) [
    | inl a ↦ ((type_in a.0 v.0.0, a.3), a.4)
    | inr a ↦ subst EditorIsValid (sym a.1) v
  ]

  pub set-EditorIsValid : (t : Bytes) → EditorIsValid (set grants e t).1
  set-EditorIsValid t = elim (set_refines grants e t) [
    | inl a ↦ ((type_in a.0 empty_zipper, a.3), a.4)
    | inr a ↦ subst EditorIsValid (sym a.1) v
  ]

at_boundary-text :
    (r : Result ℕ) (e : Editor) → (at_boundary r e (λ o. record e { cursor = o })).1.text ≡ e.text
at_boundary-text (val o) e = refl
at_boundary-text (err s) e = refl

pub move_left-text : (e : Editor) → (move_left e).1.text ≡ e.text
unfolding move_left
move_left-text e = ground (arith, at_boundary-text (previous_boundary e.text e.cursor) e)

pub move_right-text : (e : Editor) → (move_right e).1.text ≡ e.text
unfolding move_right
move_right-text e = ground (arith, at_boundary-text (next_boundary e.text e.cursor) e)

pub move_line_start-text : (e : Editor) → (move_line_start e).text ≡ e.text
unfolding move_line_start
move_line_start-text e = ground arith

pub move_line_end-text : (e : Editor) → (move_line_end e).text ≡ e.text
unfolding move_line_end
move_line_end-text e = ground arith

-- The bytes of a zipper.
abbrev size : Zipper → ℕ
size z = length (emit_before z.before) + length (emit_all z.after)

size-Shows : (e : Editor) (z : Zipper) → Shows e z → length e.text ≡ size z
size-Shows e z s = ap length s.text_is ∙ length-append (emit_before z.before) (emit_all z.after)

size-erase_left :
    (before after : List ℕ)
    → size (erase_left (record { before = before; after = after }))
      ≤ size (record { before = before; after = after })
unfolding emit_before
size-erase_left [] after = omega arith
size-erase_left (c ∷ cs) after = omega (arith, length-append (emit_before cs) (emit_utf8 c))

size-erase_right :
    (before after : List ℕ)
    → size (erase_right (record { before = before; after = after }))
      ≤ size (record { before = before; after = after })
unfolding emit_all
size-erase_right before [] = omega arith
size-erase_right before (c ∷ cs) = omega (arith, length-append (emit_utf8 c) (emit_all cs))

module _ (e : Editor) (v : EditorIsValid e) where
  pub move_left-EditorIsValid : EditorIsValid (move_left e).1
  move_left-EditorIsValid =
      ((_, (move_refines e v.0.0 v.0.1).0.1), omega (arith, v.1, ap length (move_left-text e)))

  pub move_right-EditorIsValid : EditorIsValid (move_right e).1
  move_right-EditorIsValid =
      ((_, (move_refines e v.0.0 v.0.1).1.1), omega (arith, v.1, ap length (move_right-text e)))

  pub move_line_start-EditorIsValid : EditorIsValid (move_line_start e)
  move_line_start-EditorIsValid = (
    (_, move_line_start_refines e v.0.0 v.0.1),
    omega (arith, v.1, ap length (move_line_start-text e)),
  )

  pub move_line_end-EditorIsValid : EditorIsValid (move_line_end e)
  move_line_end-EditorIsValid = (
    (_, move_line_end_refines e v.0.0 v.0.1),
    omega (arith, v.1, ap length (move_line_end-text e)),
  )

  pub backspace-EditorIsValid : EditorIsValid (backspace e).1
  backspace-EditorIsValid =
      let z = v.0.0 in
      let s = (erase_refines e z v.0.1).0.1 in
      (
        (_, s),
        omega
            (arith, v.1, size-Shows e z v.0.1, size-Shows _ _ s, size-erase_left z.before z.after),
      )

  pub delete-EditorIsValid : EditorIsValid (delete e).1
  delete-EditorIsValid =
      let z = v.0.0 in
      let s = (erase_refines e z v.0.1).1.1 in
      (
        (_, s),
        omega
            (arith, v.1, size-Shows e z v.0.1, size-Shows _ _ s, size-erase_right z.before z.after),
      )

  pub clear-EditorIsValid : EditorIsValid (clear e)
  unfolding clear emit_before emit_all
  clear-EditorIsValid = (
    (
      empty_zipper,
      record { scalars_before = tt; scalars_after = tt; text_is = refl; cursor_is = refl },
    ),
    omega arith,
  )
