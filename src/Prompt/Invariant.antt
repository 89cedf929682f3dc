-- ===== src/Prompt/Invariant.antt =====
-- src/cli_prompt_state.c: every event and every commit leave a valid prompt.
use oi_c.Prelude.{
  ℕ, zero, suc, ◌+◌, ◌%◌, ◌<◌, ◌≡◌, ◌⊎◌, inl, inr, ap, ◌∙◌, Bool, true, false, ◌||◌, List, [], ◌∷◌,
  ltb, leb, ◌==◌, if◌then◌else◌, length, take, Bytes, All, Bool-cases, ltb→lt, Option, none, some,
  arith,
}
use native.Mathlib.Nat.{mod-eq_of_lt, mod_self}
use oi_c.Commands
use oi_c.Commands.{Definition, command_count, command_at}
use oi_c.Commands.Laws.{All-filter}
use oi_c.Editor
use oi_c.Editor.{Editor}
use oi_c.Input as I
use oi_c.InputHistory as H
use oi_c.InputHistory.Bound as B
use oi_c.InputHistory.Evict as E
use oi_c.Prompt.{
  Prompt, refresh_commands, edited, redrawn, redraw_ok, selected, completed, complete_with,
  complete_selected_command, shown, apply_history, is_selected, enter, up, down, tabbed, apply_kind,
  apply, committed, commit,
}
use oi_c.Prompt.Editing.{
  EditorIsValid, insert-EditorIsValid, set-EditorIsValid, move_left-EditorIsValid,
  move_right-EditorIsValid, move_line_start-EditorIsValid, move_line_end-EditorIsValid,
  backspace-EditorIsValid, delete-EditorIsValid, clear-EditorIsValid,
}
use oi_c.Status.{Status, ok, err_notfound}

-- The selection is one of the matches, where there is one.
abbrev Selects : List ℕ → ℕ → Type 0
Selects ms i = (length ms ≡ 0) ⊎ (i < length ms)

-- The line is a text with a cursor, the history is valid, every match is an index of the table, and
-- the selection is inside the matches.
pub record IsValid (p : Prompt) : Type 0 where
  pub line : EditorIsValid p.editor
  pub past : E.IsValid p.history
  pub known : All (λ i. i < command_count) p.command_matches
  pub chosen : Selects p.command_matches p.command_selection

All-take : (n : ℕ) (xs : List ℕ) (k : ℕ) → All (λ i. i < k) xs → All (λ i. i < k) (take n xs)
All-take zero xs k h = tt
All-take (suc n) [] k h = tt
All-take (suc n) (x ∷ xs) k h = (h.0, All-take n xs k h.1)

refresh-Selects : (ms : List ℕ) (i : ℕ) → Selects ms (if leb (length ms) i then 0 else i)
refresh-Selects ms i = ground arith

next-Selects : (ms : List ℕ) (i : ℕ) → Selects ms i → Selects ms ((i + 1) % length ms)
next-Selects ms i (inl e) = inl e
next-Selects ms i (inr l) = elim (Bool-cases (ltb (i + 1) (length ms))) [
  | inl a ↦
      let m : (i + 1) % length ms ≡ i + 1 =
        mod-eq_of_lt {n = i + 1} {m = length ms} (ground arith) in
      inr (omega (arith, m, ltb→lt (i + 1) (length ms) a))
  | inr a ↦
      let last : i + 1 ≡ length ms = ground arith in
      let m : (i + 1) % length ms ≡ 0 = ap (λ k. k % length ms) last ∙ mod_self (length ms) in
      inr (omega (arith, m, l))
]

refresh_commands-IsValid :
    (p : Prompt) → EditorIsValid p.editor → E.IsValid p.history → IsValid (refresh_commands p)
unfolding refresh_commands
refresh_commands-IsValid p v h = record {
  line = v;
  past = h;
  known = All-take 8 (Commands.filter p.editor.text) command_count (All-filter p.editor.text);
  chosen = refresh-Selects (take 8 (Commands.filter p.editor.text)) p.command_selection;
}

with_editor :
    (p : Prompt) (e : Editor) → EditorIsValid e → IsValid p → IsValid (record p { editor = e })
with_editor p e w v = record { line = w; past = v.past; known = v.known; chosen = v.chosen }

with_history :
    (p : Prompt) (h : H.History) → E.IsValid h → IsValid p → IsValid (record p { history = h })
with_history p h w v = record { line = v.line; past = w; known = v.known; chosen = v.chosen }

edited-IsValid :
    (p : Prompt) (r : Status × Editor) → EditorIsValid r.1 → IsValid p → IsValid (edited p r).1
edited-IsValid p (ok, e) w v = refresh_commands-IsValid (record p { editor = e }) w v.past
edited-IsValid p (s, e) w v = with_editor p e w v

redrawn-IsValid : (r : Status × Prompt) → IsValid r.1 → IsValid (redrawn r).1
redrawn-IsValid (ok, p) v = v
redrawn-IsValid (s, p) v = v

redraw_ok-IsValid : (r : Status × Prompt) → IsValid r.1 → IsValid (redraw_ok r).1
redraw_ok-IsValid (ok, p) v = v
redraw_ok-IsValid (s, p) v = v

module _ (grants : ℕ → Bool) where
  tabbed-IsValid : (r : Status × Prompt) → IsValid r.1 → IsValid (tabbed grants r).1
  tabbed-IsValid (err_notfound, p) v = v
  tabbed-IsValid (ok, p) v = v
  tabbed-IsValid (s, p) v = v

  completed-IsValid :
      (p : Prompt) (r : Status × Editor)
      → EditorIsValid r.1
      → IsValid p
      → IsValid (completed grants p r).1
  completed-IsValid p (ok, e) w v =
      edited-IsValid p (Editor.insert grants e (32 ∷ []))
        (insert-EditorIsValid grants e w (32 ∷ [])) v
  completed-IsValid p (s, e) w v = with_editor p e w v

  complete_with-IsValid :
      (p : Prompt) (o : Option Definition) → IsValid p → IsValid (complete_with grants p o).1
  complete_with-IsValid p none v = v
  complete_with-IsValid p (some d) v =
      completed-IsValid p (Editor.set grants p.editor d.name)
        (set-EditorIsValid grants p.editor v.line d.name) v

  complete_selected_command-IsValid :
      (p : Prompt) → IsValid p → IsValid (complete_selected_command grants p).1
  unfolding complete_selected_command
  complete_selected_command-IsValid p v = elim (Bool-cases (length p.command_matches == 0)) [
    | inl e ↦ simp e v
    | inr e ↦ simp e (complete_with-IsValid p (selected p) v)
  ]

  shown-IsValid :
      (p : Prompt) (r : Status × H.History × Option Bytes)
      → E.IsValid r.1
      → IsValid p
      → IsValid (shown grants p r).1
  shown-IsValid p (ok, h, some text) w v =
      redraw_ok-IsValid (edited (record p { history = h }) (Editor.set grants p.editor text)) (
        edited-IsValid (record p { history = h }) (Editor.set grants p.editor text)
          (set-EditorIsValid grants p.editor v.line text) (with_history p h w v))
  shown-IsValid p (ok, h, none) w v = with_history p h w v
  shown-IsValid p (err_notfound, h, o) w v = with_history p h w v
  shown-IsValid p (s, h, o) w v = with_history p h w v

  walk-IsValid :
      (p : Prompt) (back : Bool)
      → E.IsValid p.history
      → E.IsValid (if back then H.previous grants p.history p.editor.text else H.next p.history).1
  walk-IsValid p true w = B.previous-IsValid grants p.history p.editor.text w
  walk-IsValid p false w = B.next-IsValid p.history w

  apply_history-IsValid :
      (p : Prompt) (back : Bool) → IsValid p → IsValid (apply_history grants p back).1
  unfolding apply_history
  apply_history-IsValid p back v = shown-IsValid p _ (walk-IsValid p back v.past) v

  enter-IsValid : (p : Prompt) → IsValid p → IsValid (enter grants p).1
  unfolding enter
  enter-IsValid p v = elim (Bool-cases (length p.command_matches == 0)) [
    | inl e ↦ simp e v
    | inr e ↦ elim (Bool-cases (is_selected grants p (selected p))) [
      | inl f ↦ simp (e, f) v
      | inr f ↦
          simp (e, f)
            (redraw_ok-IsValid (complete_selected_command grants p)
              (complete_selected_command-IsValid p v))
    ]
  ]

  up-IsValid : (p : Prompt) → IsValid p → IsValid (up grants p).1
  unfolding up
  up-IsValid p v = elim (Bool-cases (length p.command_matches == 0)) [
    | inl e ↦ simp e (apply_history-IsValid p true v)
    | inr e ↦ simp e (record {
      line = v.line;
      past = v.past;
      known = v.known;
      chosen = ground (arith, v.chosen);
    })
  ]

  down-IsValid : (p : Prompt) → IsValid p → IsValid (down grants p).1
  unfolding down
  down-IsValid p v = elim (Bool-cases (length p.command_matches == 0)) [
    | inl e ↦ simp e (apply_history-IsValid p false v)
    | inr e ↦ simp e (record {
      line = v.line;
      past = v.past;
      known = v.known;
      chosen = next-Selects p.command_matches p.command_selection v.chosen;
    })
  ]

  apply_kind-IsValid :
      (k : I.EventType) (t : Bytes) (p : Prompt) → IsValid p → IsValid (apply_kind grants k t p).1
  unfolding apply_kind
  apply_kind-IsValid I.text t p v = elim (Bool-cases (length t == 0 || ltb 4 (length t))) [
    | inl e ↦ simp e v
    | inr e ↦ simp e (
        redrawn-IsValid _ (
          edited-IsValid p (Editor.insert grants p.editor t)
            (insert-EditorIsValid grants p.editor v.line t) v))
  ]
  apply_kind-IsValid I.enter t p v = enter-IsValid p v
  apply_kind-IsValid I.newline t p v = redrawn-IsValid _ (
      edited-IsValid p (Editor.insert grants p.editor (10 ∷ []))
        (insert-EditorIsValid grants p.editor v.line (10 ∷ [])) v)
  apply_kind-IsValid I.left t p v =
      redrawn-IsValid _ (with_editor p _ (move_left-EditorIsValid p.editor v.line) v)
  apply_kind-IsValid I.right t p v =
      redrawn-IsValid _ (with_editor p _ (move_right-EditorIsValid p.editor v.line) v)
  apply_kind-IsValid I.up t p v = up-IsValid p v
  apply_kind-IsValid I.down t p v = down-IsValid p v
  apply_kind-IsValid I.home t p v =
      with_editor p _ (move_line_start-EditorIsValid p.editor v.line) v
  apply_kind-IsValid I.end t p v = with_editor p _ (move_line_end-EditorIsValid p.editor v.line) v
  apply_kind-IsValid I.backspace t p v =
      redrawn-IsValid _ (edited-IsValid p _ (backspace-EditorIsValid p.editor v.line) v)
  apply_kind-IsValid I.delete t p v =
      redrawn-IsValid _ (edited-IsValid p _ (delete-EditorIsValid p.editor v.line) v)
  apply_kind-IsValid I.tab t p v =
      tabbed-IsValid (complete_selected_command grants p) (complete_selected_command-IsValid p v)
  apply_kind-IsValid I.ctrl_c t p v =
      refresh_commands-IsValid (record p { editor = Editor.clear p.editor; pasting = false })
        (clear-EditorIsValid p.editor v.line) v.past
  apply_kind-IsValid I.ctrl_d t p v = elim (Bool-cases (length p.editor.text == 0)) [
    | inl e ↦ simp e v
    | inr e ↦
        simp e (redrawn-IsValid _ (edited-IsValid p _ (delete-EditorIsValid p.editor v.line) v))
  ]
  apply_kind-IsValid I.paste_begin t p v = record {
    line = v.line;
    past = v.past;
    known = v.known;
    chosen = v.chosen;
  }
  apply_kind-IsValid I.paste_end t p v = record {
    line = v.line;
    past = v.past;
    known = v.known;
    chosen = v.chosen;
  }
  apply_kind-IsValid I.escape t p v = v
  apply_kind-IsValid I.invalid t p v = v
  apply_kind-IsValid I.nothing t p v = v

  -- Every input event leaves a valid prompt, whatever it returns: a line of at most 1 MiB that is
  -- well-formed text with its cursor between two characters, a valid history, matches inside the
  -- command table, and the selection inside the matches if there are any.
  pub apply-IsValid : (p : Prompt) (e : I.Event) → IsValid p → IsValid (apply grants p e).1
  unfolding apply
  apply-IsValid p e v = apply_kind-IsValid e.kind e.bytes p v

  committed-IsValid :
      (p : Prompt) (r : Status × H.History)
      → E.IsValid r.1
      → IsValid p
      → IsValid (committed grants p r).1
  committed-IsValid p (ok, h) w v =
      refresh_commands-IsValid (record p { history = h; editor = Editor.clear p.editor })
        (clear-EditorIsValid p.editor v.line) w
  committed-IsValid p (s, h) w v = with_history p h w v

  pub commit-IsValid : (p : Prompt) → IsValid p → IsValid (commit grants p).1
  unfolding commit
  commit-IsValid p v = elim (Bool-cases (length p.editor.text == 0)) [
    | inl e ↦ simp e v
    | inr e ↦ elim (Bool-cases (grants (length p.editor.text + 1))) [
      | inr f ↦ simp (e, f) v
      | inl f ↦
          simp (e, f)
            (committed-IsValid p (H.append grants p.history p.editor.text)
              (B.append_history-IsValid grants p.history p.editor.text v.past) v)
    ]
  ]
