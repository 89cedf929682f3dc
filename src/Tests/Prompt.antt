-- ===== src/Tests/Prompt.antt =====
-- The slash commands and the prompt.
use oi_c.Prelude.{
  ◌↔◌, ℕ, ◌≡◌, inl, refl, Bool, true, false, [], ◌∷◌, ◌++◌, Bytes, codes, none, some, arith,
}
use oi_c.Commands.{
  Definition, Parse, command, command_at, commands, filter, matching, is_space, is_prefix,
  has_space, one_slash, parse_text,
}
use oi_c.Commands.Laws.{contains, Completes, contains-filter}
use oi_c.Commands.Line.{Spaces, IsTrimmed, parse_text-command}
use oi_c.Editor.{has_nul}
use oi_c.Editor.Zipper.{Zipper, Shows, emit_before}
use oi_c.Input as I
use oi_c.InputHistory as H
use oi_c.InputHistory.{validate_text}
use oi_c.InputHistory.Evict as E
use oi_c.Prompt.{Prompt, redraw, apply, commit, up}
use oi_c.Prompt.Invariant.{IsValid, apply-IsValid}
use oi_c.Prompt.Recall.{up-commit}
use oi_c.Status.{ok}
use oi_c.Utf8.{validate, validate_from, sequence_length}
use oi_c.Utf8.Encode.{emit_utf8, emit_all}

contains-filter_example : (contains 5 (filter (codes "/st")) ≡ true) ↔ Completes (codes "/st") 5
contains-filter_example = contains-filter (codes "/st") 5

-- The model command, with the arguments "a b" between spaces.
abbrev model : Definition
model = record {
  id = oi_c.Commands.model;
  name = codes "/model";
  usage = codes "/model [name]";
  description = codes "Show or change the session model";
  scope = oi_c.Commands.session_scoped;
}

abbrev arguments : Bytes
arguments = 97 ∷ 32 ∷ 98 ∷ []

arguments-IsTrimmed : IsTrimmed arguments
unfolding IsTrimmed is_space oi_c.Commands.drop_spaces
arguments-IsTrimmed = (refl, refl)

two_spaces_lem : Spaces (32 ∷ 9 ∷ [])
unfolding is_space
two_spaces_lem = (refl, (refl, tt))

model-command_at : command_at 3 ≡ some model
unfolding command_at commands
model-command_at = refl

parse_text-command_example :
    parse_text (model.name ++ (32 ∷ ((9 ∷ []) ++ (arguments ++ (32 ∷ 9 ∷ [])))))
    ≡ command model arguments
parse_text-command_example =
    parse_text-command 3 model 32 (9 ∷ []) arguments (32 ∷ 9 ∷ []) model-command_at two_spaces_lem
      arguments-IsTrimmed two_spaces_lem

abbrev all_granted : ℕ → Bool
all_granted n = true

all_granted-plenty : (n : ℕ) → all_granted n ≡ true
all_granted-plenty n = refl

-- A prompt with "hi" on its line and no history.
abbrev prompt : Prompt
prompt = record {
  editor = record { text = 104 ∷ 105 ∷ []; cap = 64; cursor = 2 };
  history = record {
    entries = [];
    cap = 0;
    bytes = 0;
    draft = none;
    navigation_index = 0;
    navigating = false;
  };
  pasting = false;
  command_matches = [];
  command_selection = 0;
}

abbrev view : Zipper
view = record { before = 105 ∷ 104 ∷ []; after = [] }

prompt-Shows : Shows prompt.editor view
unfolding emit_before emit_utf8 emit_all
prompt-Shows = record {
  scalars_before = (inl (omega arith), (inl (omega arith), tt));
  scalars_after = tt;
  text_is = refl;
  cursor_is = refl;
}

history-IsValid : E.IsValid prompt.history
unfolding E.total
history-IsValid = record {
  few = omega arith;
  counted = refl;
  small = omega arith;
  inside = omega arith;
  held = omega arith;
  room = omega arith;
}

prompt-IsValid : IsValid prompt
prompt-IsValid = record {
  line = ((view, prompt-Shows), omega arith);
  past = history-IsValid;
  known = tt;
  chosen = inl refl;
}

apply-IsValid_example :
    IsValid (apply all_granted prompt (record { kind = I.text; bytes = 33 ∷ []; pasted = false })).1
apply-IsValid_example =
    apply-IsValid all_granted prompt (record { kind = I.text; bytes = 33 ∷ []; pasted = false })
      prompt-IsValid

commit-ok : (commit all_granted prompt).0 ≡ ok
unfolding commit H.append H.push H.remove_oldest validate_text has_nul validate validate_from
    sequence_length H.is_newest H.reserve_entries H.make_room
commit-ok = refl

up-commit_example :
    let q = commit all_granted prompt in
    let r = up all_granted q.1 in
    (q.2 ≡ some prompt.editor.text)
    × (r.0 ≡ ok)
    × (r.1.editor.text ≡ prompt.editor.text)
    × (r.2 ≡ redraw)
up-commit_example = up-commit all_granted all_granted-plenty prompt prompt-IsValid commit-ok
