-- ===== src/Editor.antt =====
-- src/cli_editor.c: the line that the user edits, as UTF-8 with a byte cursor.
-- `text` is data[0 .. len), without the terminating NUL; `cap` is 0 while data is NULL. `grants`
-- tells whether a `realloc` to n bytes succeeds.
pub mod Growth
pub mod Zipper
pub mod Moves
pub mod Edits
pub mod Insert
pub mod Lines
use oi_c.Prelude.{
  ℕ, zero, suc, ◌+◌, ◌-◌, ◌*◌, ◌/◌, Bool, true, false, [], ◌∷◌, ◌++◌, ◌||◌, ltb, leb, ◌==◌,
  if◌then◌else◌, length, get_or, take, drop, Bytes, Option, none, some,
}
use oi_c.Status.{Status, ok, err_inval, err_nomem, err_parse, Result, val, err}
use oi_c.Utf8.{validate, next_boundary, previous_boundary}

-- OI_CLI_EDITOR_MAX_BYTES
abbrev pub max_bytes : ℕ
max_bytes = 1048576

pub record Editor : Type 0 where
  pub text : Bytes
  pub cap : ℕ
  pub cursor : ℕ

unfoldable pub init : Editor
init = record { text = []; cap = 0; cursor = 0 }

unfoldable pub free : Editor → Editor
free e = init

unfoldable pub clear : Editor → Editor
clear e = record e { text = []; cursor = 0 }

-- The doubling loop of `editor_reserve`; `none` stands for a loop that is still running.
unfoldable pub grow : ℕ → ℕ → ℕ → Option ℕ
grow zero cap required = if ltb cap required then none else some cap
grow (suc fuel) cap required =
    let rest = grow fuel (cap * 2) required in
    if ltb cap required
    then if ltb ((max_bytes + 1) / 2) cap then some (max_bytes + 1) else rest
    else some cap

-- The `realloc`, on the capacity that the loop ends with.
unfoldable pub reallocate : (ℕ → Bool) → Editor → Option ℕ → Status × Editor
reallocate grants e none = (err_nomem, e)
reallocate grants e (some cap) = if grants cap then (ok, record e { cap = cap }) else (err_nomem, e)

unfoldable pub reserve : (ℕ → Bool) → Editor → ℕ → Status × Editor
reserve grants e required_len =
    if ltb max_bytes required_len
    then (err_inval, e)
    else if leb (required_len + 1) e.cap
    then (ok, e)
    else reallocate grants e
        (grow (required_len + 1) (if e.cap == 0 then 64 else e.cap) (required_len + 1))

-- `memchr(text, '\0', text_len) != NULL`
unfoldable pub has_nul : Bytes → Bool
has_nul [] = false
has_nul (c ∷ cs) = c == 0 || has_nul cs

unfoldable pub validate_editor_text : Bytes → Status
validate_editor_text t =
    if ltb max_bytes (length t) then err_inval else if has_nul t then err_parse else validate t

-- The steps of a function that returns the first status that is not OI_OK.
abbrev pub check : Status → Editor → Status × Editor → Status × Editor
check ok e next = next
check s e next = (s, e)

abbrev pub reserved : Status × Editor → (Editor → Editor) → Status × Editor
reserved (ok, e) next = (ok, next e)
reserved (s, e) next = (s, e)

unfoldable pub set : (ℕ → Bool) → Editor → Bytes → Status × Editor
set grants e t =
    check (validate_editor_text t) e
      (reserved (reserve grants e (length t)) (λ e'. record e' { text = t; cursor = length t }))

unfoldable pub insert : (ℕ → Bool) → Editor → Bytes → Status × Editor
insert grants e t =
    if ltb (length e.text) e.cursor
    then (err_inval, e)
    else check (validate_editor_text t) e (
        if ltb (max_bytes - length e.text) (length t)
        then (err_inval, e)
        else if length t == 0
        then (ok, e)
        else reserved (reserve grants e (length e.text + length t)) (λ e'. record e' {
          text = take e.cursor e.text ++ (t ++ drop e.cursor e.text);
          cursor = e.cursor + length t;
        }))

-- What the four operations below do with the boundary that they look for.
abbrev pub at_boundary : Result ℕ → Editor → (ℕ → Editor) → Status × Editor
at_boundary (err s) e next = (s, e)
at_boundary (val o) e next = (ok, next o)

unfoldable pub move_left : Editor → Status × Editor
move_left e =
    if ltb (length e.text) e.cursor
    then (err_inval, e)
    else if e.cursor == 0
    then (ok, e)
    else at_boundary (previous_boundary e.text e.cursor) e (λ o. record e { cursor = o })

unfoldable pub move_right : Editor → Status × Editor
move_right e =
    if ltb (length e.text) e.cursor
    then (err_inval, e)
    else if e.cursor == length e.text
    then (ok, e)
    else at_boundary (next_boundary e.text e.cursor) e (λ o. record e { cursor = o })

unfoldable pub backspace : Editor → Status × Editor
backspace e =
    if ltb (length e.text) e.cursor
    then (err_inval, e)
    else if e.cursor == 0
    then (ok, e)
    else at_boundary (previous_boundary e.text e.cursor) e
        (λ o. record e { text = take o e.text ++ drop e.cursor e.text; cursor = o })

unfoldable pub delete : Editor → Status × Editor
delete e =
    if ltb (length e.text) e.cursor
    then (err_inval, e)
    else if e.cursor == length e.text
    then (ok, e)
    else at_boundary (next_boundary e.text e.cursor) e
        (λ o. record e { text = take e.cursor e.text ++ drop o e.text })

-- `while (cursor > 0 && data[cursor - 1] != '\n') cursor--`
unfoldable pub line_start : Bytes → ℕ → ℕ
line_start text zero = zero
line_start text (suc c) = if get_or text c 0 == b'\n' then suc c else line_start text c

-- `while (cursor < len && data[cursor] != '\n') cursor++`, on the rounds that are left.
unfoldable pub line_end : Bytes → ℕ → ℕ → ℕ
line_end text zero c = c
line_end text (suc left) c = if get_or text c 0 == b'\n' then c else line_end text left (c + 1)

unfoldable pub move_line_start : Editor → Editor
move_line_start e =
    if ltb (length e.text) e.cursor then e else record e { cursor = line_start e.text e.cursor }

unfoldable pub move_line_end : Editor → Editor
move_line_end e =
    if ltb (length e.text) e.cursor
    then e
    else record e { cursor = line_end e.text (length e.text - e.cursor) e.cursor }
