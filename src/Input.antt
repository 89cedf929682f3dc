-- ===== src/Input.antt =====
-- src/cli_input.c: the terminal's bytes, one event at a time.
-- The event has no room for bytes it does not have: `text` is text[0 .. text_len). A decoder is its
-- flag `pasting`. The call's pointers are taken to be no NULL pointers.
pub mod Progress
pub mod Text
use oi_c.Prelude.{
  ℕ, zero, suc, ◌+◌, ◌-◌, Bool, true, false, not, ◌&&◌, ◌||◌, List, [], ◌∷◌, ltb, leb, ◌==◌, within,
  min, if◌then◌else◌, length, get_or, take, drop, Bytes, equal, codes, Option, none, some,
}
use oi_c.Status.{Status, Result, val, err, ok, err_again}
use oi_c.Utf8.{sequence_length}

-- enum oi_cli_input_event_type
pub data EventType : Type 0 where
  nothing text enter newline left right up down home end backspace delete tab : EventType
  ctrl_c ctrl_d escape paste_begin paste_end invalid : EventType

pub record Event : Type 0 where
  pub kind : EventType
  pub bytes : Bytes
  pub pasted : Bool

-- What a call leaves: the status, `*out_consumed`, `*out_event` and the decoder.
pub record Decoded : Type 0 where
  pub status : Status
  pub consumed : ℕ
  pub event : Event
  pub pasting : Bool

abbrev pub simple_event : EventType → Event
simple_event k = record { kind = k; bytes = []; pasted = false }

abbrev again : Bool → Decoded
again pasting = record {
  status = err_again;
  consumed = 0;
  event = simple_event nothing;
  pasting = pasting;
}

abbrev one_event : EventType → ℕ → Bool → Decoded
one_event k n pasting = record {
  status = ok;
  consumed = n;
  event = simple_event k;
  pasting = pasting;
}

-- The length that the first byte announces, `none` for a byte that starts nothing.
unfoldable pub expected_length : ℕ → Option ℕ
expected_length c =
    if leb c 127
    then some 1
    else if within 194 223 c
    then some 2
    else if within 224 239 c
    then some 3
    else if within 240 244 c
    then some 4
    else none

-- `decode_text`; `pasted` is the decoder's flag too.
unfoldable pub text_event : Bytes → Bool → Result ℕ → Decoded
text_event xs pasted (err e) = one_event invalid 1 pasted
text_event xs pasted (val n) = record {
  status = ok;
  consumed = n;
  event = record { kind = text; bytes = take n xs; pasted = pasted };
  pasting = pasted;
}

unfoldable pub decode_text : Bytes → Bool → Decoded
decode_text xs pasted = elim (expected_length (get_or xs 0 0)) [
  | none ↦ one_event invalid 1 pasted
  | some n ↦ if ltb (length xs) n then again pasted else text_event xs pasted (sequence_length xs)
]

unfoldable pub escape_mappings : List (Bytes × EventType)
escape_mappings =
    (27 ∷ codes "[A", up)
    ∷ (27 ∷ codes "[B", down)
    ∷ (27 ∷ codes "[C", right)
    ∷ (27 ∷ codes "[D", left)
    ∷ (27 ∷ codes "[H", home)
    ∷ (27 ∷ codes "[F", end)
    ∷ (27 ∷ codes "[1~", home)
    ∷ (27 ∷ codes "[4~", end)
    ∷ (27 ∷ codes "[7~", home)
    ∷ (27 ∷ codes "[8~", end)
    ∷ (27 ∷ codes "[3~", delete)
    ∷ (27 ∷ codes "[200~", paste_begin)
    ∷ []

unfoldable pub paste_end_bytes : Bytes
paste_end_bytes = 27 ∷ codes "[201~"

abbrev pub is_paste_begin : EventType → Bool
is_paste_begin paste_begin = true
is_paste_begin _ = false

-- The loop of `decode_escape`, whose caller is not pasting.
unfoldable pub decode_mappings : List (Bytes × EventType) → Bool → Bytes → Decoded
decode_mappings [] has_prefix xs =
    if has_prefix || length xs == 1 then again false else one_event invalid 1 false
decode_mappings ((s, k) ∷ ms) has_prefix xs =
    let compared = min (length xs) (length s) in
    let passed = decode_mappings ms has_prefix xs in
    let prefixed = decode_mappings ms true xs in
    if not (equal (take compared xs) (take compared s))
    then passed
    else if ltb (length xs) (length s)
    then prefixed
    else one_event k (length s) (is_paste_begin k)

unfoldable pub decode_escape : Bytes → Decoded
decode_escape xs = decode_mappings escape_mappings false xs

unfoldable pub decode_pasted : Bytes → Decoded
decode_pasted xs =
    if get_or xs 0 0 == 27
      && (ltb (length xs) (length paste_end_bytes) && equal xs (take (length xs) paste_end_bytes))
    then again true
    else if get_or xs 0 0 == 27
        && (leb (length paste_end_bytes) (length xs)
            && equal (take (length paste_end_bytes) xs) paste_end_bytes)
    then one_event paste_end (length paste_end_bytes) false
    else if get_or xs 0 0 == 0
    then one_event invalid 1 true
    else decode_text xs true

-- The `switch` over a first byte that is no ESC.
unfoldable pub decode_plain : ℕ → Bytes → Decoded
decode_plain c xs =
    if c == 13
    then one_event enter 1 false
    else if c == 10
    then one_event newline 1 false
    else if c == 3
    then one_event ctrl_c 1 false
    else if c == 4
    then one_event ctrl_d 1 false
    else if c == 127 || c == 8
    then one_event backspace 1 false
    else if c == 9
    then one_event tab 1 false
    else if c == 1
    then one_event home 1 false
    else if c == 5
    then one_event end 1 false
    else if ltb c 32
    then one_event invalid 1 false
    else decode_text xs false

unfoldable pub decode : Bool → Bytes → Decoded
decode pasting [] = again pasting
decode true (x ∷ xs) = decode_pasted (x ∷ xs)
decode false (x ∷ xs) = if x == 27 then decode_escape (x ∷ xs) else decode_plain x (x ∷ xs)
