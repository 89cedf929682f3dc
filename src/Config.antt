-- ===== src/Config.antt =====
-- src/config.c: the settings, and the lines of a configuration file.
-- A C string is the bytes before its NUL. `strtol`, `strcasecmp`, `memchr` and `fgets` are those of the C library,
-- in the C locale, with a long of 64 bits and an int of 32. The range of a long contains the range of an int.
pub mod Line
pub mod Secret
pub mod Ranges
use oi_c.Prelude.{
  ℕ, zero, suc, ◌+◌, ◌-◌, ◌*◌, Bool, true, false, not, ◌&&◌, ◌||◌, List, [], ◌∷◌, ◌++◌, ltb, leb,
  ◌==◌, if◌then◌else◌, length, Bytes, equal, codes, Option, none, some,
}
use oi_c.Status.{
  Status, Result, val, err, ok, err_nomem, err_parse, err_notfound, err_io, err_denied, is_ok,
}

-- Integers over the native natural numbers; `negsuc n` is -(n + 1).
pub data ℤ : Type 0 where
  pos : ℕ → ℤ
  negsuc : ℕ → ℤ

-- `use_tls` is 0 or 1, and the two numbers are positive.
pub record Config : Type 0 where
  pub api_key : Option Bytes
  pub host : Option Bytes
  pub port : ℕ
  pub use_tls : Bool
  pub ca_file : Option Bytes
  pub path : Option Bytes
  pub model : Option Bytes
  pub timeout_ms : ℕ

abbrev pub int_max : ℕ
int_max = 2147483647

abbrev pub long_max : ℕ
long_max = 9223372036854775807

abbrev is_digit : ℕ → Bool
is_digit c = leb 48 c && leb c 57

-- isspace of the C locale
abbrev is_white : ℕ → Bool
is_white c = c == 32 || leb 9 c && leb c 13

unfoldable pub skip_white : Bytes → Bytes
skip_white [] = []
skip_white (c ∷ cs) = let rest = skip_white cs in if is_white c then rest else c ∷ cs

-- The value of the digits in front, and the bytes behind them.
unfoldable pub read_digits : ℕ → Bytes → ℕ × Bytes
read_digits v [] = (v, [])
read_digits v (c ∷ cs) =
    let rest = read_digits (v * 10 + (c - 48)) cs in if is_digit c then rest else (v, c ∷ cs)

-- `-v` for a number that has been read.
abbrev negated : ℕ → ℤ
negated zero = pos 0
negated (suc n) = negsuc n

abbrev signed : Bool → ℕ → ℤ
signed true v = negated v
signed false v = pos v

-- The number behind the sign, where there is a digit: the value, and `end` behind it.
unfoldable pub unsigned : Bool → Bytes → Option (ℤ × Bytes)
unsigned minus [] = none
unsigned minus (c ∷ cs) =
    let r = read_digits 0 (c ∷ cs) in if is_digit c then some (signed minus r.0, r.1) else none

abbrev pub behind_sign : Bytes → Option (ℤ × Bytes)
behind_sign [] = none
behind_sign (c ∷ cs) =
    if c == 45
    then unsigned true cs
    else if c == 43
    then unsigned false cs
    else unsigned false (c ∷ cs)

-- The value before it is cut down to a long, and `end`, or no number.
unfoldable pub strtol : Bytes → Option (ℤ × Bytes)
strtol bs = behind_sign (skip_white bs)

-- ERANGE
abbrev pub out_of_long : ℤ → Bool
out_of_long (pos n) = ltb long_max n
out_of_long (negsuc n) = ltb long_max n

abbrev pub out_of_int : ℤ → Bool
out_of_int (pos n) = ltb int_max n
out_of_int (negsuc n) = ltb int_max n

abbrev pub checked : Option (ℤ × Bytes) → Result ℤ
checked none = err err_parse
checked (some (v, end)) =
    if (not (length end == 0) || out_of_long v) || out_of_int v then err err_parse else val v

unfoldable pub parse_int : Bytes → Result ℤ
parse_int value = if length value == 0 then err err_parse else checked (strtol value)

abbrev lower : ℕ → ℕ
lower c = if leb 65 c && leb c 90 then c + 32 else c

unfoldable pub same_word : Bytes → Bytes → Bool
same_word [] [] = true
same_word [] (d ∷ ds) = false
same_word (c ∷ cs) [] = false
same_word (c ∷ cs) (d ∷ ds) = lower c == lower d && same_word cs ds

unfoldable pub parse_bool : Bytes → Result Bool
parse_bool v =
    if same_word v (codes "true") || same_word v (codes "1") || same_word v (codes "yes")
    then val true
    else if same_word v (codes "false") || same_word v (codes "0") || same_word v (codes "no")
    then val false
    else err err_parse

abbrev pub with_port : Config → Result ℤ → Status × Config
with_port c (val (pos n)) =
    if ltb n 1 || ltb 65535 n then (err_parse, c) else (ok, record c { port = n })
with_port c (val (negsuc n)) = (err_parse, c)
with_port c (err s) = (err_parse, c)

abbrev pub with_timeout : Config → Result ℤ → Status × Config
with_timeout c (val (pos n)) = if leb n 0 then (err_parse, c) else (ok, record c { timeout_ms = n })
with_timeout c (val (negsuc n)) = (err_parse, c)
with_timeout c (err s) = (err_parse, c)

abbrev pub with_tls : Config → Result Bool → Status × Config
with_tls c (val b) = (ok, record c { use_tls = b })
with_tls c (err s) = (s, c)

-- C's blank and line-end bytes at the two ends of a span.
unfoldable pub trim_start : Bytes → Bytes
trim_start [] = []
trim_start (c ∷ cs) = let rest = trim_start cs in if c == 32 || c == 9 then rest else c ∷ cs

abbrev pub is_blank : ℕ → Bool
is_blank c = c == 32 || c == 9 || c == 13 || c == 10

unfoldable pub trim_end : Bytes → Bytes
trim_end [] = []
trim_end (c ∷ cs) =
    let rest = trim_end cs in if length rest == 0 && is_blank c then [] else c ∷ rest

unfoldable pub trim : Bytes → Bytes
trim bs = trim_end (trim_start bs)

-- The string that the bytes of a buffer hold.
unfoldable pub c_string : Bytes → Bytes
c_string [] = []
c_string (c ∷ cs) = let rest = c_string cs in if c == 0 then [] else c ∷ rest

abbrev pub in_front : ℕ → Option (Bytes × Bytes) → Option (Bytes × Bytes)
in_front c none = none
in_front c (some (k, v)) = some (c ∷ k, v)

-- `memchr` for the equals sign: what stands before it and behind it.
unfoldable pub split_equals : Bytes → Option (Bytes × Bytes)
split_equals [] = none
split_equals (c ∷ cs) =
    let rest = split_equals cs in if c == 61 then some ([], cs) else in_front c rest

-- The successive results of `fgets` on a buffer of 1024: a line with its newline, or 1023 bytes of one.
unfoldable pub fgets_lines : Bytes → Bytes → List Bytes
fgets_lines held [] = if length held == 0 then [] else held ∷ []
fgets_lines held (c ∷ cs) =
    let line = held ++ (c ∷ []) in
    let cut = c == 10 || length line == 1023 in
    let rest = fgets_lines (if cut then [] else line) cs in if cut then line ∷ rest else rest

-- What `fopen` finds: ENOENT, another errno, or the bytes that can be read.
pub data Opened : Type 0 where
  missing : Opened
  refused : Opened
  opened : Bytes → Opened

-- The defaults that are not strings.
abbrev pub empty : Config
empty = record {
  api_key = none;
  host = none;
  port = 443;
  use_tls = true;
  ca_file = none;
  path = none;
  model = none;
  timeout_ms = 60000;
}

unfoldable pub free : Config → Config
free c = record c { api_key = none; host = none; ca_file = none; path = none; model = none }

module _ (grants : ℕ → Bool) where
  -- `strdup`; the field keeps its value where it fails.
  unfoldable pub set_string : Option Bytes → Bytes → Status × Option Bytes
  set_string field value =
      if grants (length value + 1) then (ok, some value) else (err_nomem, field)

  unfoldable pub set : Config → Bytes → Bytes → Status × Config
  set c key value =
      if equal key (codes "api_key")
      then (let r = set_string c.api_key value in (r.0, record c { api_key = r.1 }))
      else if equal key (codes "host")
      then (let r = set_string c.host value in (r.0, record c { host = r.1 }))
      else if equal key (codes "port")
      then with_port c (parse_int value)
      else if equal key (codes "use_tls")
      then with_tls c (parse_bool value)
      else if equal key (codes "ca_file")
      then (let r = set_string c.ca_file value in (r.0, record c { ca_file = r.1 }))
      else if equal key (codes "path")
      then (let r = set_string c.path value in (r.0, record c { path = r.1 }))
      else if equal key (codes "model")
      then (let r = set_string c.model value in (r.0, record c { model = r.1 }))
      else if equal key (codes "timeout_ms")
      then with_timeout c (parse_int value)
      else (err_notfound, c)

  -- The value of OI_API_KEY, if it is set.
  unfoldable pub load_env : Config → Option Bytes → Status × Config
  load_env c none = (ok, c)
  load_env c (some v) =
      if length v == 0
      then (ok, c)
      else (let r = set_string c.api_key v in (r.0, record c { api_key = r.1 }))

  -- A setting, its key and value not yet trimmed.
  abbrev pub assign : Config → Option (Bytes × Bytes) → Status × Config
  assign c none = (err_parse, c)
  assign c (some (k, v)) =
      let key = trim k in
      if length key == 0
      then (err_parse, c)
      else if equal key (codes "api_key")
      then (err_denied, c)
      else set c key (trim v)

  abbrev pub parse_trimmed : Config → Bytes → Status × Config
  parse_trimmed c [] = (ok, c)
  parse_trimmed c (b ∷ bs) = if b == 35 then (ok, c) else assign c (split_equals (b ∷ bs))

  unfoldable pub parse_line : Config → Bytes → Status × Config
  parse_line c line = parse_trimmed c (trim (c_string line))

  -- Line by line, up to the first status that is not OI_OK.
  unfoldable pub load_lines : Status × Config → List Bytes → Status × Config
  load_lines r [] = r
  load_lines r (l ∷ ls) = if is_ok r.0 then load_lines (parse_line r.1 l) ls else r

  unfoldable pub load_file : Config → Opened → Status × Config
  load_file c missing = (err_notfound, c)
  load_file c refused = (err_io, c)
  load_file c (opened bytes) = load_lines (ok, c) (fgets_lines [] bytes)

  -- Each default only if those before it were copied.
  unfoldable pub init_defaults : Status × Config
  init_defaults =
      let host = set_string none (codes "api.openai.com") in
      let path = set_string none (codes "/v1/chat/completions") in
      let model = set_string none (codes "gpt-4o-mini") in
      if not (is_ok host.0)
      then (host.0, empty)
      else if not (is_ok path.0)
      then (path.0, record empty { host = host.1 })
      else (model.0, record empty { host = host.1; path = path.1; model = model.1 })
