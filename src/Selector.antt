-- ===== src/Selector.antt =====
-- src/cli_selector.c: one event on a list of options.
use oi_c.Prelude.{
  ℕ, zero, suc, ◌+◌, ◌-◌, ◌%◌, Bool, true, false, ◌&&◌, ◌||◌, ltb, leb, ◌==◌, within, if◌then◌else◌,
  length, get_or,
}
use oi_c.Input.{EventType, up, down, enter, escape, ctrl_c, text, Event}
use oi_c.Status.{Result, val, err, err_inval}
pub mod Laws

-- enum oi_cli_selector_action
pub data Action : Type 0 where
  none redraw confirm cancel : Action

-- The cases of the `switch`: `*selected` and `*out_action`.
unfoldable pub act : EventType → Event → ℕ → ℕ → ℕ × Action
act up e n i = if ltb 1 n then ((if i == 0 then n - 1 else i - 1), redraw) else (i, none)
act down e n i = if ltb 1 n then ((i + 1) % n, redraw) else (i, none)
act enter e n i = (i, confirm)
act escape e n i = (i, cancel)
act ctrl_c e n i = (i, cancel)
act text e n i =
    if (length e.bytes == 1 && within b'1' b'9' (get_or e.bytes 0 0))
      && ltb (get_or e.bytes 0 0 - b'1') n
    then (get_or e.bytes 0 0 - b'1', confirm)
    else (i, none)
act _ e n i = (i, none)

unfoldable pub apply : Event → ℕ → ℕ → Result (ℕ × Action)
apply e n i = if n == 0 || leb n i then err err_inval else val (act e.kind e n i)
