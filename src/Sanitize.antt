-- ===== src/Sanitize.antt =====
-- src/cli_render_sanitize.c: the filter that takes terminal control sequences out of model output.
pub mod Laws
pub mod Safe
pub mod Bound
pub mod Controls
use oi_c.Prelude.{
  ℕ, ◌+◌, Bool, true, false, not, ◌&&◌, ◌||◌, List, [], ◌∷◌, ltb, leb, ◌==◌, within, if◌then◌else◌,
  Bytes, Option,
}
use oi_c.Bytebuf.{Bytebuf}
use oi_c.Pump
use oi_c.Pump.{One, Machine, Fed}

pub data Phase : Type 0 where
  normal saw_c2 escape csi string string_esc : Phase

pub record Sanitizer : Type 0 where
  pub phase : Phase
  pub sequence_bytes : ℕ

-- OI_CLI_SANITIZE_MAX_SEQUENCE
abbrev pub max_sequence : ℕ
max_sequence = 4096

unfoldable pub init : Sanitizer
init = record { phase = normal; sequence_bytes = 0 }

-- `state->phase = NORMAL; state->sequence_bytes = 0`
abbrev pub cleared : Sanitizer
cleared = record { phase = normal; sequence_bytes = 0 }

unfoldable pub check_cap : Sanitizer → Sanitizer
check_cap s = if leb max_sequence s.sequence_bytes then cleared else s

unfoldable pub is_string_introducer : ℕ → Bool
is_string_introducer c = c == b'P' || c == b']' || c == b'X' || c == b'^' || c == b'_'

unfoldable pub is_plain_passthrough : ℕ → Bool
is_plain_passthrough c =
    if c == 0x1b || c == 0xc2
    then false
    else if c == 0x0a || c == 0x09
    then true
    else if ltb c 0x20 || c == 0x7f
    then false
    else true

abbrev drops : Sanitizer → One Sanitizer
drops s = record { next = s; emits = []; again = false }

-- `phase = p; sequence_bytes++`
abbrev counted : Sanitizer → Phase → Sanitizer
counted s p = record { phase = p; sequence_bytes = s.sequence_bytes + 1 }

-- The cases of the switch in `feed_one`.
unfoldable pub feed_in : Phase → Sanitizer → ℕ → One Sanitizer
unfolding check_cap is_string_introducer is_plain_passthrough
feed_in normal s c =
    if c == 0x1b
    then drops (record { phase = escape; sequence_bytes = 1 })
    else if c == 0xc2
    then drops (record s { phase = saw_c2 })
    else if is_plain_passthrough c
    then record { next = s; emits = c ∷ []; again = false }
    else drops s
feed_in saw_c2 s c =
    if within 0x80 0x9f c
    then drops (record s { phase = normal })
    else record { next = record s { phase = normal }; emits = 0xc2 ∷ []; again = true }
feed_in escape s c =
    if c == b'['
    then drops (check_cap (counted s csi))
    else if is_string_introducer c
    then drops (check_cap (counted s string))
    else if within 0x20 0x7e c
    then drops cleared
    else record { next = cleared; emits = []; again = true }
feed_in csi s c = if within 0x40 0x7e c then drops cleared else drops (check_cap (counted s csi))
feed_in string s c =
    if c == 0x07
    then drops cleared
    else drops (check_cap (counted s (if c == 0x1b then string_esc else string)))
feed_in string_esc s c = if c == b'\\' then drops cleared else drops (check_cap (counted s string))

abbrev pub feed_one : Sanitizer → ℕ → One Sanitizer
feed_one s c = feed_in s.phase s c

abbrev pub is_normal : Phase → Bool
is_normal normal = true
is_normal _ = false

abbrev pub sanitize_machine : Machine Sanitizer
sanitize_machine = record {
  idle = λ s. is_normal s.phase;
  plain = is_plain_passthrough;
  one = feed_one;
}

unfoldable pub feed : (ℕ → Bool) → Sanitizer → Bytes → Bytebuf → Option (Fed Sanitizer)
feed = Pump.feed sanitize_machine

unfoldable pub finish : Sanitizer → Sanitizer
finish s = cleared
