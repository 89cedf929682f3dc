-- ===== src/Prompt.antt =====
-- src/cli_prompt_state.c: what an input event does to the line, the history and the list of commands.
-- `history` is borrowed in the source; here it is the value that the pointer shows. `command_matches` is the
-- array up to `command_match_count`.
pub mod Editing
pub mod Invariant
pub mod Recall
use oi_c.Prelude.{
  ℕ, ◌+◌, ◌-◌, ◌%◌, Bool, true, false, not, ◌&&◌, ◌||◌, List, [], ◌∷◌, ltb, leb, ◌==◌,
  if◌then◌else◌, length, get_or, take, Bytes, equal, Option, none, some,
}
use oi_c.Commands
use oi_c.Commands.{Definition, command_at}
use oi_c.Editor
use oi_c.Editor.{Editor}
use oi_c.Input as I
use oi_c.InputHistory as H
use oi_c.Status.{Status, ok, err_inval, err_nomem, err_notfound, is_ok}

-- enum oi_cli_prompt_action
pub data Action : Type 0 where
  nothing redraw submit exit : Action

pub record Prompt : Type 0 where
  pub editor : Editor
  pub history : H.History
  pub pasting : Bool
  pub command_matches : List ℕ
  pub command_selection : ℕ

-- The array has room for 8.
unfoldable pub refresh_commands : Prompt → Prompt
refresh_commands p =
    let matches = take 8 (Commands.filter p.editor.text) in
    record p {
      command_matches = matches;
      command_selection =
          if leb (length matches) p.command_selection then 0 else p.command_selection;
    }

unfoldable pub init : H.History → Prompt
init history = record {
  editor = Editor.init;
  history = history;
  pasting = false;
  command_matches = [];
  command_selection = 0;
}

-- The pointer to the history is reset, and the history kept by its owner.
unfoldable pub free : Prompt → Prompt
free p = record p {
  editor = Editor.free p.editor;
  pasting = false;
  command_matches = [];
  command_selection = 0;
}

-- `status == OI_OK` refreshes the list of commands.
abbrev pub edited : Prompt → Status × Editor → Status × Prompt
edited p (ok, e) = (ok, refresh_commands (record p { editor = e }))
edited p (s, e) = (s, record p { editor = e })

abbrev pub moved : Prompt → Status × Editor → Status × Prompt
moved p (s, e) = (s, record p { editor = e })

-- A redraw for OI_OK outside a paste, at the end of `oi_cli_prompt_state_apply`.
abbrev pub redrawn : Status × Prompt → Status × Prompt × Action
redrawn (ok, p) = (ok, p, if p.pasting then nothing else redraw)
redrawn (s, p) = (s, p, nothing)

-- A redraw for OI_OK.
abbrev pub redraw_ok : Status × Prompt → Status × Prompt × Action
redraw_ok (ok, q) = (ok, q, redraw)
redraw_ok (s, q) = (s, q, nothing)

abbrev pub selected : Prompt → Option Definition
selected p = command_at (get_or p.command_matches p.command_selection 0)

module _ (grants : ℕ → Bool) where
  -- The name, and a space behind it.
  abbrev pub completed : Prompt → Status × Editor → Status × Prompt
  completed p (ok, e) = edited p (Editor.insert grants e (32 ∷ []))
  completed p (s, e) = (s, record p { editor = e })

  abbrev pub complete_with : Prompt → Option Definition → Status × Prompt
  complete_with p none = (err_inval, p)
  complete_with p (some d) = completed p (Editor.set grants p.editor d.name)

  unfoldable pub complete_selected_command : Prompt → Status × Prompt
  complete_selected_command p =
      if length p.command_matches == 0 then (err_notfound, p) else complete_with p (selected p)

  -- What is done with the text that the history shows.
  abbrev pub shown : Prompt → Status × H.History × Option Bytes → Status × Prompt × Action
  shown p (ok, h, some text) =
      redraw_ok (edited (record p { history = h }) (Editor.set grants p.editor text))
  shown p (ok, h, none) = (ok, record p { history = h }, nothing)
  shown p (err_notfound, h, o) = (ok, record p { history = h }, nothing)
  shown p (s, h, o) = (s, record p { history = h }, nothing)

  unfoldable pub apply_history : Prompt → Bool → Status × Prompt × Action
  apply_history p back =
      shown p (if back then H.previous grants p.history p.editor.text else H.next p.history)

  -- OI_CLI_INPUT_ENTER: the line is the selected name, or a command is selected, or none is.
  abbrev pub is_selected : Prompt → Option Definition → Bool
  is_selected p none = false
  is_selected p (some d) = equal p.editor.text d.name

  unfoldable pub enter : Prompt → Status × Prompt × Action
  enter p =
      if not (length p.command_matches == 0)
      then (if is_selected p (selected p)
          then (ok, p, submit)
          else redraw_ok (complete_selected_command p))
      else (ok, p, if length p.editor.text == 0 then nothing else submit)

  unfoldable pub up : Prompt → Status × Prompt × Action
  up p =
      let i = p.command_selection in
      if not (length p.command_matches == 0)
      then (
        ok,
        record p { command_selection = if i == 0 then length p.command_matches - 1 else i - 1 },
        redraw,
      )
      else apply_history p true

  unfoldable pub down : Prompt → Status × Prompt × Action
  down p =
      if not (length p.command_matches == 0)
      then (
        ok,
        record p { command_selection = (p.command_selection + 1) % length p.command_matches },
        redraw,
      )
      else apply_history p false

  abbrev pub tabbed : Status × Prompt → Status × Prompt × Action
  tabbed (err_notfound, p) = (ok, p, nothing)
  tabbed r = redrawn r

  -- The text event has no room for more than 4 bytes.
  unfoldable pub apply_kind : I.EventType → Bytes → Prompt → Status × Prompt × Action
  apply_kind I.text t p =
      if length t == 0 || ltb 4 (length t)
      then (err_inval, p, nothing)
      else redrawn (edited p (Editor.insert grants p.editor t))
  apply_kind I.enter t p = enter p
  apply_kind I.newline t p = redrawn (edited p (Editor.insert grants p.editor (10 ∷ [])))
  apply_kind I.left t p = redrawn (moved p (Editor.move_left p.editor))
  apply_kind I.right t p = redrawn (moved p (Editor.move_right p.editor))
  apply_kind I.up t p = up p
  apply_kind I.down t p = down p
  apply_kind I.home t p = redrawn (ok, record p { editor = Editor.move_line_start p.editor })
  apply_kind I.end t p = redrawn (ok, record p { editor = Editor.move_line_end p.editor })
  apply_kind I.backspace t p = redrawn (edited p (Editor.backspace p.editor))
  apply_kind I.delete t p = redrawn (edited p (Editor.delete p.editor))
  apply_kind I.tab t p = tabbed (complete_selected_command p)
  apply_kind I.ctrl_c t p =
      (ok, refresh_commands (record p { editor = Editor.clear p.editor; pasting = false }), redraw)
  apply_kind I.ctrl_d t p =
      if length p.editor.text == 0
      then (ok, p, exit)
      else redrawn (edited p (Editor.delete p.editor))
  apply_kind I.paste_begin t p = (ok, record p { pasting = true }, nothing)
  apply_kind I.paste_end t p = (ok, record p { pasting = false }, redraw)
  apply_kind I.escape t p = (ok, p, nothing)
  apply_kind I.invalid t p = (ok, p, nothing)
  apply_kind I.nothing t p = (ok, p, nothing)

  unfoldable pub apply : Prompt → I.Event → Status × Prompt × Action
  apply p e = apply_kind e.kind e.bytes p

  -- With the line appended to the history: the prompt, and the copy that is handed out.
  abbrev pub committed : Prompt → Status × H.History → Status × Prompt × Option Bytes
  committed p (ok, h) = (
    ok,
    refresh_commands (record p { history = h; editor = Editor.clear p.editor }),
    some p.editor.text,
  )
  committed p (s, h) = (s, record p { history = h }, none)

  unfoldable pub commit : Prompt → Status × Prompt × Option Bytes
  commit p =
      if length p.editor.text == 0
      then (err_inval, p, none)
      else if not (grants (length p.editor.text + 1))
      then (err_nomem, p, none)
      else committed p (H.append grants p.history p.editor.text)
