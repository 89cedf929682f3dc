-- ===== src/Editor/Zipper.antt =====
-- What the editor is for its user: a sequence of characters with a gap between two of them.
use oi_c.Prelude.{
  ℕ, ◌+◌, ◌≡◌, refl, List, [], ◌∷◌, ◌++◌, length, length-append, Bytes, All, arith, sym, ap, ◌∙◌,
  ◌≤◌, ◌<◌, append_assoc, drop-append,
}
use oi_c.Status.{val}
use oi_c.Utf8.{next_boundary, previous_boundary, sequence_length}
use oi_c.Utf8.Boundary.{next_boundary_intro, previous_boundary-next_boundary, emit_utf8_pos}
use oi_c.Utf8.Encode.{IsScalar, emit_utf8, emit_all}
use oi_c.Utf8.RoundTrip.{sequence_length-emit_utf8}
use oi_c.Editor.{Editor}

-- Code points; `before` has the one next to the cursor first.
pub record Zipper : Type 0 where
  pub before : List ℕ
  pub after : List ℕ

abbrev pub left_of : Zipper → Zipper
left_of z = elim z.before [ [] ↦ z | c ∷ cs ↦ record { before = cs; after = c ∷ z.after } ]

abbrev pub right_of : Zipper → Zipper
right_of z = elim z.after [ [] ↦ z | c ∷ cs ↦ record { before = c ∷ z.before; after = cs } ]

abbrev pub erase_left : Zipper → Zipper
erase_left z = elim z.before [ [] ↦ z | c ∷ cs ↦ record z { before = cs } ]

abbrev pub erase_right : Zipper → Zipper
erase_right z = elim z.after [ [] ↦ z | c ∷ cs ↦ record z { after = cs } ]

-- The characters of a text, put before the cursor one by one.
abbrev pub type_in : List ℕ → Zipper → Zipper
type_in [] z = z
type_in (c ∷ cs) z = type_in cs (record z { before = c ∷ z.before })

-- The bytes of the characters before the cursor.
unfoldable pub emit_before : List ℕ → Bytes
emit_before [] = []
emit_before (c ∷ cs) = emit_before cs ++ emit_utf8 c

-- The editor holds the characters of `z`, with the cursor at its gap.
pub record Shows (e : Editor) (z : Zipper) : Type 0 where
  pub scalars_before : All IsScalar z.before
  pub scalars_after : All IsScalar z.after
  pub text_is : e.text ≡ emit_before z.before ++ emit_all z.after
  pub cursor_is : e.cursor ≡ length (emit_before z.before)

pub cursor-le : {e : Editor} {z : Zipper} → Shows e z → e.cursor ≤ length e.text
cursor-le {e} {z} s = omega (
  arith,
  s.cursor_is,
  ap length s.text_is,
  length-append (emit_before z.before) (emit_all z.after),
)

-- The boundary behind a character that stands after `p`, and the one before it.
pub next_boundary_at :
    (p : Bytes) (c : ℕ) (q : Bytes)
    → IsScalar c
    → next_boundary (p ++ (emit_utf8 c ++ q)) (length p) ≡ val (length p + length (emit_utf8 c))
next_boundary_at p c q s =
    next_boundary_intro _ (length p) _
      (ap sequence_length (drop-append (length p) p _ refl) ∙ sequence_length-emit_utf8 c q s)
      (omega
        (arith, length-append p (emit_utf8 c ++ q), length-append (emit_utf8 c) q, emit_utf8_pos c))

pub previous_boundary_at :
    (p : Bytes) (c : ℕ) (q : Bytes)
    → IsScalar c
    → previous_boundary (p ++ (emit_utf8 c ++ q)) (length p + length (emit_utf8 c)) ≡ val (length p)
previous_boundary_at p c q s = previous_boundary-next_boundary _ _ _ (next_boundary_at p c q s)

-- An editor with a character before the cursor.
module _ {e : Editor} {c : ℕ} {cs after : List ℕ}
    (s : Shows e (record { before = c ∷ cs; after = after })) where
  pub text_before : e.text ≡ emit_before cs ++ (emit_utf8 c ++ emit_all after)
  unfolding emit_before
  text_before = s.text_is ∙ append_assoc (emit_before cs) (emit_utf8 c) (emit_all after)

  pub cursor_before : e.cursor ≡ length (emit_before cs) + length (emit_utf8 c)
  unfolding emit_before
  cursor_before = s.cursor_is ∙ length-append (emit_before cs) (emit_utf8 c)

  pub cursor_pos : 0 < e.cursor
  cursor_pos = omega (arith, cursor_before, emit_utf8_pos c)

  pub previous_is : previous_boundary e.text e.cursor ≡ val (length (emit_before cs))
  previous_is =
      ap (λ t. previous_boundary t e.cursor) text_before
      ∙ ap (previous_boundary _) cursor_before
      ∙ previous_boundary_at (emit_before cs) c (emit_all after) s.scalars_before.0

-- An editor with a character behind the cursor.
module _ {e : Editor} {c : ℕ} {before cs : List ℕ}
    (s : Shows e (record { before = before; after = c ∷ cs })) where
  pub text_after : e.text ≡ emit_before before ++ (emit_utf8 c ++ emit_all cs)
  unfolding emit_all
  text_after = s.text_is

  pub cursor-lt : e.cursor < length e.text
  cursor-lt = omega (
    arith,
    s.cursor_is,
    ap length text_after,
    length-append (emit_before before) (emit_utf8 c ++ emit_all cs),
    length-append (emit_utf8 c) (emit_all cs),
    emit_utf8_pos c,
  )

  pub next_is : next_boundary e.text e.cursor ≡ val (e.cursor + length (emit_utf8 c))
  next_is =
      ap (λ t. next_boundary t e.cursor) text_after
      ∙ ap (next_boundary _) s.cursor_is
      ∙ next_boundary_at (emit_before before) c (emit_all cs) s.scalars_after.0
      ∙ ap (λ k. val (k + length (emit_utf8 c))) (sym s.cursor_is)

-- Nothing before, nothing behind.
pub cursor_zero :
    {e : Editor} {after : List ℕ} → Shows e (record { before = []; after = after }) → e.cursor ≡ 0
unfolding emit_before
cursor_zero s = s.cursor_is

pub cursor_end :
    {e : Editor} {before : List ℕ}
    → Shows e (record { before = before; after = [] })
    → e.cursor ≡ length e.text
unfolding emit_all
cursor_end s = omega (arith, s.cursor_is, ap length s.text_is, length-append (emit_before _) [])
