-- ===== src/Tests/Edit.antt =====
-- src/cli_editor.c on the text "aé", with the cursor behind the "a".
use oi_c.Prelude.{ℕ, ◌≤◌, ◌≡◌, ◌≢◌, ◌⊎◌, inl, refl, Bool, true, List, [], ◌∷◌, length, Bytes, arith}
use oi_c.Status.{ok}
use oi_c.Utf8.Encode.{emit_utf8, emit_all}
use oi_c.Utf8.Text.{IsText}
use oi_c.Editor.{Editor, max_bytes, insert, set, backspace, delete, move_left, move_right}
use oi_c.Editor.Zipper.{
  Zipper, Shows, emit_before, left_of, right_of, erase_left, erase_right, type_in,
}
use oi_c.Editor.Moves.{Yields, move_refines}
use oi_c.Editor.Edits.{erase_refines}
use oi_c.Editor.Insert.{insert_refines, set_refines, empty_zipper}

abbrev all_granted : ℕ → Bool
all_granted n = true

abbrev shown : Editor
shown = record { text = 97 ∷ 195 ∷ 169 ∷ []; cap = 64; cursor = 1 }

abbrev view : Zipper
view = record { before = 97 ∷ []; after = 233 ∷ [] }

abbrev euro : Bytes
euro = 226 ∷ 130 ∷ 172 ∷ []

shown-Shows : Shows shown view
unfolding emit_before emit_utf8 emit_all
shown-Shows = record {
  scalars_before = (inl (omega arith), tt);
  scalars_after = (inl (omega arith), tt);
  text_is = refl;
  cursor_is = refl;
}

euro-IsText : IsText euro
unfolding emit_utf8 emit_all
euro-IsText = (8364 ∷ [], (inl (omega arith), tt), refl)

insert_refines_example :
    ((cs : List ℕ) × (euro ≡ emit_all cs)
      × ((insert all_granted shown euro).0 ≡ ok)
      × Shows (insert all_granted shown euro).1 (type_in cs view)
      × (length (insert all_granted shown euro).1.text ≤ max_bytes))
    ⊎ (((insert all_granted shown euro).0 ≢ ok) × ((insert all_granted shown euro).1 ≡ shown))
insert_refines_example = insert_refines all_granted shown view euro shown-Shows (omega arith)

set_refines_example :
    ((cs : List ℕ) × (euro ≡ emit_all cs)
      × ((set all_granted shown euro).0 ≡ ok)
      × Shows (set all_granted shown euro).1 (type_in cs empty_zipper)
      × (length (set all_granted shown euro).1.text ≤ max_bytes))
    ⊎ (((set all_granted shown euro).0 ≢ ok) × ((set all_granted shown euro).1 ≡ shown))
set_refines_example = set_refines all_granted shown euro

erase_refines_example :
    Yields (backspace shown) (erase_left view) × Yields (delete shown) (erase_right view)
erase_refines_example = erase_refines shown view shown-Shows

move_refines_example :
    Yields (move_left shown) (left_of view) × Yields (move_right shown) (right_of view)
move_refines_example = move_refines shown view shown-Shows
