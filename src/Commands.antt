-- ===== src/Commands.antt =====
-- src/cli_commands.c: the table of slash commands, its filter, and what a submitted line means.
-- A command is found by its index in the table. `arguments` is the text that the pointer and its length show.
pub mod Laws
pub mod Line
use oi_c.Prelude.{
  ℕ, zero, suc, ◌+◌, Bool, true, false, not, ◌&&◌, ◌||◌, List, [], ◌∷◌, ltb, leb, ◌==◌,
  if◌then◌else◌, length, get_or, get_elem?, take, Bytes, equal, codes, Option, none, some,
}

-- enum oi_cli_command_scope
pub data Scope : Type 0 where
  read_only process_scoped session_scoped : Scope

-- enum oi_cli_command_id
pub data CommandId : Type 0 where
  help exit session model permissions status compact cwd : CommandId

pub record Definition : Type 0 where
  pub id : CommandId
  pub name : Bytes
  pub usage : Bytes
  pub description : Bytes
  pub scope : Scope

abbrev entry : CommandId → Bytes → Bytes → Bytes → Scope → Definition
entry i n u d s = record { id = i; name = n; usage = u; description = d; scope = s }

unfoldable pub commands : List Definition
commands =
    entry help (codes "/help") (codes "/help") (codes "Show commands and key bindings") read_only
    ∷ entry exit (codes "/exit") (codes "/exit") (codes "Exit after the current safe boundary")
        process_scoped
    ∷ entry session (codes "/session") (codes "/session [list|current|switch|...]")
        (codes "List, switch, rename, trash, restore, or import sessions") session_scoped
    ∷ entry model (codes "/model") (codes "/model [name]")
        (codes "Show or change the session model") session_scoped
    ∷ entry permissions (codes "/permissions") (codes "/permissions [ask|allow|deny]")
        (codes "Show or change tool permissions") process_scoped
    ∷ entry status (codes "/status") (codes "/status")
        (codes "Show current runtime and session status") read_only
    ∷ entry compact (codes "/compact") (codes "/compact [turns]")
        (codes "Compact older model context") session_scoped
    ∷ entry cwd (codes "/cwd") (codes "/cwd [path]")
        (codes "Show or change the session working directory") session_scoped
    ∷ []

unfoldable pub is_space : ℕ → Bool
is_space c = c == 32 || c == 9 || c == 13 || c == 10

unfoldable pub command_count : ℕ
unfolding commands
command_count = length commands

unfoldable pub command_at : ℕ → Option Definition
command_at i = get_elem? commands i

-- The text begins with one slash.
abbrev pub one_slash : Bytes → Bool
one_slash [] = false
one_slash (c ∷ []) = c == b'/'
one_slash (c ∷ (d ∷ ds)) = c == b'/' && not (d == b'/')

unfoldable pub has_space : Bytes → Bool
has_space [] = false
has_space (c ∷ cs) = is_space c || has_space cs

-- `text_len <= name_len && memcmp(name, text, text_len) == 0`
abbrev pub is_prefix : Bytes → Bytes → Bool
is_prefix text name = leb (length text) (length name) && equal (take (length text) name) text

-- The loop over the table from index `i` on: the indices that match.
unfoldable pub matching : Bytes → ℕ → List Definition → List ℕ
matching text i [] = []
matching text i (d ∷ ds) =
    let rest = matching text (i + 1) ds in if is_prefix text d.name then i ∷ rest else rest

-- All the matches; the caller's array takes as many as it has room for.
unfoldable pub filter : Bytes → List ℕ
filter text = if not (one_slash text) || has_space text then [] else matching text 0 commands

-- enum oi_cli_command_parse_kind, with what the call sets for each.
pub data Parse : Type 0 where
  message : Parse
  literal_slash : Bytes → Parse
  command : Definition → Bytes → Parse
  unknown : Parse

-- The bytes before the first space, and the rest.
unfoldable pub token : Bytes → Bytes
token [] = []
token (c ∷ cs) = let rest = token cs in if is_space c then [] else c ∷ rest

unfoldable pub behind_token : Bytes → Bytes
behind_token [] = []
behind_token (c ∷ cs) = let rest = behind_token cs in if is_space c then c ∷ cs else rest

unfoldable pub find_name : Bytes → List Definition → Option Definition
find_name name [] = none
find_name name (d ∷ ds) = let rest = find_name name ds in if equal d.name name then some d else rest

unfoldable pub skip_spaces : Bytes → Bytes
skip_spaces [] = []
skip_spaces (c ∷ cs) = let rest = skip_spaces cs in if is_space c then rest else c ∷ cs

abbrev pub cons_unless : Bool → ℕ → Bytes → Bytes
cons_unless b c [] = if b then [] else c ∷ []
cons_unless b c (d ∷ ds) = c ∷ (d ∷ ds)

-- Without the spaces at the end.
unfoldable pub drop_spaces : Bytes → Bytes
drop_spaces [] = []
drop_spaces (c ∷ cs) = cons_unless (is_space c) c (drop_spaces cs)

abbrev pub parse_command : Bytes → Option Definition → Parse
parse_command text none = unknown
parse_command text (some d) = command d (drop_spaces (skip_spaces (behind_token text)))

abbrev tail : Bytes → Bytes
tail [] = []
tail (c ∷ cs) = cs

unfoldable pub parse_text : Bytes → Parse
parse_text text =
    if not (get_or text 0 0 == b'/')
    then message
    else if get_or text 1 0 == b'/'
    then literal_slash (tail text)
    else parse_command text (find_name (token text) commands)
