-- ===== src/Editor/Insert.antt =====
-- Inserting and setting text are those of the zipper, and a refused call changes nothing.
use oi_c.Prelude.{
  ℕ, ◌+◌, ◌≡◌, ◌≢◌, ◌⊎◌, inl, inr, refl, List, [], ◌∷◌, ◌++◌, length, length-append, Bytes, All,
  arith, sym, ap, ◌∙◌, ◌≤◌, append_assoc, append-nil, Bool, true, false, take, drop,
  take-append-drop, subst,
}
use oi_c.Status.{Status, ok}
use oi_c.Utf8.Encode.{IsScalar, emit_utf8, emit_all}
use oi_c.Utf8.Text.{IsText, validate_iff}
use oi_c.Editor.{
  Editor, init, max_bytes, insert, set, reserve, reserved, validate_editor_text, has_nul,
}
use oi_c.Editor.Growth.{Reserved, reserve-Reserved, reserve-ok}
use oi_c.Editor.Edits.{take_cursor, drop_cursor}
use oi_c.Editor.Zipper.{Zipper, type_in, emit_before, Shows, cursor-le}

-- The bytes before the cursor, after typing.
emit_before-type_in :
    (cs : List ℕ) (z : Zipper)
    → emit_before (type_in cs z).before ≡ emit_before z.before ++ emit_all cs
unfolding emit_all emit_before
emit_before-type_in [] z = sym (append-nil (emit_before z.before))
emit_before-type_in (c ∷ cs) z =
    emit_before-type_in cs (record z { before = c ∷ z.before })
    ∙ append_assoc (emit_before z.before) (emit_utf8 c) (emit_all cs)

after-type_in : (cs : List ℕ) (z : Zipper) → (type_in cs z).after ≡ z.after
after-type_in [] z = refl
after-type_in (c ∷ cs) z = after-type_in cs (record z { before = c ∷ z.before })

scalars-type_in :
    (cs : List ℕ) (z : Zipper)
    → All IsScalar cs
    → All IsScalar z.before
    → All IsScalar (type_in cs z).before
scalars-type_in [] z s h = h
scalars-type_in (c ∷ cs) z (s, ss) h =
    scalars-type_in cs (record z { before = c ∷ z.before }) ss (s, h)

-- An editor that holds the text with the insertion, and the cursor behind it.
Shows-type_in :
    (e e' : Editor) (z : Zipper) (cs : List ℕ)
    → Shows e z
    → All IsScalar cs
    → e'.text ≡ take e.cursor e.text ++ (emit_all cs ++ drop e.cursor e.text)
    → e'.cursor ≡ e.cursor + length (emit_all cs)
    → Shows e' (type_in cs z)
Shows-type_in e e' z cs s h t c = record {
  scalars_before = scalars-type_in cs z h s.scalars_before;
  scalars_after = subst (All IsScalar) (sym (after-type_in cs z)) s.scalars_after;
  text_is =
      t
      ∙ ap (λ p. p ++ (emit_all cs ++ drop e.cursor e.text)) (take_cursor s)
      ∙ ap (λ q. emit_before z.before ++ (emit_all cs ++ q)) (drop_cursor s)
      ∙ sym (append_assoc (emit_before z.before) (emit_all cs) (emit_all z.after))
      ∙ ap (λ p. p ++ emit_all z.after) (sym (emit_before-type_in cs z))
      ∙ ap (λ q. emit_before (type_in cs z).before ++ emit_all q) (sym (after-type_in cs z));
  cursor_is =
      c
      ∙ ap (λ k. k + length (emit_all cs)) s.cursor_is
      ∙ sym (length-append (emit_before z.before) (emit_all cs))
      ∙ ap length (sym (emit_before-type_in cs z));
}

-- What an insertion that is not refused has done.
abbrev Inserted : Editor → Bytes → Status × Editor → Type 0
Inserted e t r =
    ((r.0 ≡ ok)
      × (r.1.text ≡ take e.cursor e.text ++ (t ++ drop e.cursor e.text))
      × (r.1.cursor ≡ e.cursor + length t)
      × (length e.text + length t ≤ max_bytes)
      × (validate_editor_text t ≡ ok))
    ⊎ ((r.0 ≢ ok) × (r.1 ≡ e))

-- What follows a `reserve` is done if that succeeds, and otherwise nothing is.
reserved_cases :
    (e : Editor) (n : ℕ) (next : Editor → Editor) (r : Status × Editor)
    → Reserved e n r
    → ((reserved r next ≡ (ok, next r.1)) × (r.1.text ≡ e.text) × (r.1.cursor ≡ e.cursor))
      ⊎ (((reserved r next).0 ≢ ok) × ((reserved r next).1 ≡ e))
reserved_cases e n next (ok, e') (inl h) = inl (refl, h.2, h.3)
reserved_cases e n next (ok, e') (inr h) = absurd (h.0 refl)
reserved_cases e n next (_, e') (inl h) = cc
reserved_cases e n next (_, e') (inr h) = inr h

insert_cases :
    (grants : ℕ → Bool) (e : Editor) (t : Bytes)
    → e.cursor ≤ length e.text
    → length e.text ≤ max_bytes
    → Inserted e t (insert grants e t)
unfolding insert
insert_cases grants e [] l m = ground (arith, take-append-drop e.cursor e.text)
insert_cases grants e (x ∷ xs) l m =
    let t = x ∷ xs in
    ground (
      arith,
      reserved_cases e (length e.text + length t)
          (λ (e' : Editor). record e' {
            text = take e.cursor e.text ++ (t ++ drop e.cursor e.text);
            cursor = e.cursor + length t;
          })
          (reserve grants e (length e.text + length t))
          (reserve-Reserved grants e (length e.text + length t)),
    )

validated :
    (t : Bytes)
    → validate_editor_text t ≡ ok
    → IsText t × (has_nul t ≡ false) × (length t ≤ max_bytes)
unfolding validate_editor_text
validated t h = ((validate_iff t).0 (ground arith), ground arith, ground arith)

-- From an editor that shows a sequence of characters with a cursor and is within 1 MiB, an
-- insertion either says OI_OK, and then the text was a well-formed sequence of characters that
-- now stand before the cursor, within 1 MiB, or it says an error and changes nothing.
pub insert_refines :
    (grants : ℕ → Bool) (e : Editor) (z : Zipper) (t : Bytes)
    → Shows e z
    → length e.text ≤ max_bytes
    → let r = insert grants e t in
      ((cs : List ℕ) × (t ≡ emit_all cs)
        × (r.0 ≡ ok)
        × Shows r.1 (type_in cs z)
        × (length r.1.text ≤ max_bytes))
      ⊎ ((r.0 ≢ ok) × (r.1 ≡ e))
insert_refines grants e z t s m = elim (insert_cases grants e t (cursor-le s) m) [
  | inr f ↦ inr f
  | inl (o, tx, cu, b, v) ↦
      let (cs, sc, te) = (validated t v).0 in
      let text = tx ∙ ap (λ u. take e.cursor e.text ++ (u ++ drop e.cursor e.text)) te in
      inl (
        cs,
        te,
        o,
        Shows-type_in e (insert grants e t).1 z cs s sc text
            (cu ∙ ap (λ u. e.cursor + length u) te),
        omega (
          arith,
          ap length tx,
          length-append (take e.cursor e.text) (t ++ drop e.cursor e.text),
          length-append t (drop e.cursor e.text),
          ap length (take-append-drop e.cursor e.text),
          length-append (take e.cursor e.text) (drop e.cursor e.text),
        ),
      )
]

-- An insertion of well-formed text without NUL into an editor whose cursor is inside its text
-- says OI_OK if both texts fit in 1 MiB and the allocator gives memory.
pub insert-ok :
    (grants : ℕ → Bool) (e : Editor) (t : Bytes)
    → ((k : ℕ) → grants k ≡ true)
    → e.cursor ≤ length e.text
    → IsText t
    → has_nul t ≡ false
    → length e.text + length t ≤ max_bytes
    → (insert grants e t).0 ≡ ok
unfolding insert validate_editor_text
insert-ok grants e t given l i n m =
    ground (arith, (validate_iff t).1 i, reserve-ok grants e (length e.text + length t) given m)

pub set_cases :
    (grants : ℕ → Bool) (e : Editor) (t : Bytes)
    → let r = set grants e t in
      ((r.0 ≡ ok) × (r.1.text ≡ t) × (r.1.cursor ≡ length t) × (validate_editor_text t ≡ ok))
      ⊎ ((r.0 ≢ ok) × (r.1 ≡ e))
unfolding set
set_cases grants e t = ground (
  arith,
  reserved_cases e (length t) (λ (e' : Editor). record e' { text = t; cursor = length t })
      (reserve grants e (length t)) (reserve-Reserved grants e (length t)),
)

abbrev pub empty_zipper : Zipper
empty_zipper = record { before = []; after = [] }

pub Shows-init : Shows init empty_zipper
unfolding init emit_before emit_all
Shows-init = record { scalars_before = tt; scalars_after = tt; text_is = refl; cursor_is = refl }

-- Setting the text either says OI_OK, and then the text was a well-formed sequence of characters
-- of at most 1 MiB, which the editor shows with the cursor at its end, or it says an error and
-- changes nothing.
pub set_refines :
    (grants : ℕ → Bool) (e : Editor) (t : Bytes)
    → let r = set grants e t in
      ((cs : List ℕ) × (t ≡ emit_all cs)
        × (r.0 ≡ ok)
        × Shows r.1 (type_in cs empty_zipper)
        × (length r.1.text ≤ max_bytes))
      ⊎ ((r.0 ≢ ok) × (r.1 ≡ e))
set_refines grants e t = elim (set_cases grants e t) [
  | inr f ↦ inr f
  | inl (o, tx, cu, v) ↦
      let (i, _, b) = validated t v in
      let (cs, sc, te) = i in
      inl (
        cs,
        te,
        o,
        Shows-type_in init (set grants e t).1 empty_zipper cs Shows-init sc
            (unfold init in (tx ∙ te ∙ sym (append-nil (emit_all cs))))
            (unfold init in (cu ∙ omega (arith, ap length te))),
        omega (arith, ap length tx),
      )
]
