-- ===== src/InputHistory.antt =====
-- src/cli_input_history.c: the submitted inputs, and the walk through them with a draft kept aside.
-- `entries` is entries[0 .. len), oldest first; `draft` is `none` where the pointer is NULL. `grants` is
-- the allocator. What a call writes through its out parameters is its last component, `none` where it
-- writes nothing. The two out parameters are taken to be no NULL pointers.
pub mod Evict
pub mod Walk
pub mod Bound
use oi_c.Prelude.{
  ℕ, zero, suc, ◌+◌, ◌-◌, ◌*◌, Bool, true, false, not, ◌&&◌, ◌||◌, List, [], ◌∷◌, ◌++◌, ltb, leb,
  ◌==◌, if◌then◌else◌, length, get_or, drop, Bytes, equal, Option, none, some,
}
use oi_c.Editor.{has_nul}
use oi_c.Status.{Status, ok, err_inval, err_nomem, err_parse, err_notfound, is_ok}
use oi_c.Utf8.{validate}

-- OI_CLI_INPUT_HISTORY_MAX_ENTRIES and OI_CLI_INPUT_HISTORY_MAX_BYTES
abbrev pub max_entries : ℕ
max_entries = 256

abbrev pub max_text : ℕ
max_text = 4194304

-- `sizeof(struct oi_cli_input_history_entry)`, a pointer and a size_t of 64 bits.
abbrev entry_size : ℕ
entry_size = 16

pub record History : Type 0 where
  pub entries : List Bytes
  pub cap : ℕ
  pub bytes : ℕ
  pub draft : Option Bytes
  pub navigation_index : ℕ
  pub navigating : Bool

unfoldable pub validate_text : Bytes → Bool → Status
validate_text text allow_empty =
    if not allow_empty && length text == 0
    then err_inval
    else if ltb max_text (length text)
    then err_inval
    else if has_nul text
    then err_parse
    else validate text

unfoldable pub reset_navigation : History → History
reset_navigation h = record h {
  draft = none;
  navigation_index = length h.entries;
  navigating = false;
}

unfoldable pub init : History
init = record {
  entries = [];
  cap = 0;
  bytes = 0;
  draft = none;
  navigation_index = 0;
  navigating = false;
}

-- `oi_cli_input_history_free` ends with `oi_cli_input_history_init`.
unfoldable pub free : History → History
free h = init

-- The loop over `remove_oldest`: the entries and the count of their bytes.
unfoldable pub remove_oldest : ℕ → List Bytes → ℕ → List Bytes × ℕ
remove_oldest text_len [] bytes = ([], bytes)
remove_oldest text_len (e ∷ es) bytes =
    let rest = remove_oldest text_len es (bytes - length e) in
    if leb max_entries (length (e ∷ es)) || ltb (max_text - text_len) bytes
    then rest
    else (e ∷ es, bytes)

unfoldable pub make_room : History → ℕ → History
make_room h text_len =
    let r = remove_oldest text_len h.entries h.bytes in record h { entries = r.0; bytes = r.1 }

abbrev pub new_cap : ℕ → ℕ
new_cap cap =
    let twice = if cap == 0 then 16 else cap * 2 in
    if ltb max_entries twice then max_entries else twice

unfoldable pub reserve_entries : (ℕ → Bool) → History → Status × History
reserve_entries grants h =
    if ltb (length h.entries) h.cap
    then (ok, h)
    else if grants (new_cap h.cap * entry_size)
    then (ok, record h { cap = new_cap h.cap })
    else (err_nomem, h)

unfoldable pub push : Bytes → History → History
push text h =
    reset_navigation
      (record h { entries = h.entries ++ (text ∷ []); bytes = h.bytes + length text })

-- The newest entry is this text.
unfoldable pub is_newest : Bytes → List Bytes → Bool
is_newest text [] = false
is_newest text (e ∷ []) = equal e text
is_newest text (e ∷ (d ∷ ds)) = is_newest text (d ∷ ds)

unfoldable pub append : (ℕ → Bool) → History → Bytes → Status × History
append grants h text =
    let room = reserve_entries grants (make_room h (length text)) in
    if not (is_ok (validate_text text false))
    then (validate_text text false, h)
    else if is_newest text h.entries
    then (ok, reset_navigation h)
    else if not (grants (length text + 1))
    then (err_nomem, h)
    else if is_ok room.0
    then (ok, push text room.1)
    else room

-- A step back, in a walk that has begun.
unfoldable pub step_back : History → Status × History × Option Bytes
step_back h = (
  ok,
  record h { navigation_index = h.navigation_index - 1 },
  some (get_or h.entries (h.navigation_index - 1) []),
)

unfoldable pub previous : (ℕ → Bool) → History → Bytes → Status × History × Option Bytes
previous grants h text =
    if length h.entries == 0 || h.navigating && h.navigation_index == 0
    then (err_notfound, h, none)
    else if h.navigating
    then step_back h
    else if not (is_ok (validate_text text true))
    then (validate_text text true, h, none)
    else if not (grants (length text + 1))
    then (err_nomem, h, none)
    else step_back
        (record h { draft = some text; navigation_index = length h.entries; navigating = true })

abbrev pub draft_text : Option Bytes → Bytes
draft_text none = []
draft_text (some t) = t

unfoldable pub next : History → Status × History × Option Bytes
next h =
    let i = h.navigation_index + 1 in
    if not h.navigating || h.navigation_index == length h.entries
    then (err_notfound, h, none)
    else (
      ok,
      record h { navigation_index = i },
      some (if i == length h.entries then draft_text h.draft else get_or h.entries i []),
    )
