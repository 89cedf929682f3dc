-- ===== src/Utf8.antt =====
-- src/cli_utf8.c: UTF-8 sequences, their boundaries in a text, and display widths.
-- A pointer with its length is the list of the bytes that it shows; NULL pointers are not modelled.
-- On a byte, `b & (2^k - 1)` is `b % 2^k`; `|` of disjoint bit fields is `+`.
pub mod Encode
pub mod RoundTrip
pub mod Sound
pub mod Boundary
pub mod Text
use oi_c.Prelude.{
  ℕ, zero, suc, ◌+◌, ◌-◌, ◌*◌, ◌/◌, ◌%◌, Bool, true, false, not, ◌&&◌, ◌||◌, List, [], ◌∷◌, ltb,
  leb, ◌==◌, within, if◌then◌else◌, length, get_or, take, drop, Bytes,
}
use oi_c.Status.{Status, ok, err_inval, err_parse, Result, val, err, ◌>>=◌}

-- `(byte & 0xc0) == 0x80`: the two high bits of a byte.
unfoldable pub is_continuation : ℕ → Bool
is_continuation byte = (byte / 64) * 64 == 0x80

unfoldable pub lead_length : ℕ → Result ℕ
lead_length first =
    if leb first 0x7f
    then val 1
    else if leb 0xc2 first && leb first 0xdf
    then val 2
    else if leb 0xe0 first && leb first 0xef
    then val 3
    else if leb 0xf0 first && leb first 0xf4
    then val 4
    else err err_parse

-- The last four tests: no overlong form, no surrogate, nothing above U+10FFFF.
check_range : Bytes → ℕ → Result ℕ
check_range text n =
    let first = get_or text 0 0 in
    let second = get_or text 1 0 in
    if first == 0xe0 && ltb second 0xa0
    then err err_parse
    else if first == 0xed && ltb 0x9f second
    then err err_parse
    else if first == 0xf0 && ltb second 0x90
    then err err_parse
    else if first == 0xf4 && ltb 0x8f second
    then err err_parse
    else val n

-- The tests after the lead byte; `text` holds the lead byte too, `n` is the length it announces.
check_sequence : Bytes → ℕ → Result ℕ
check_sequence text n =
    if n == 1
    then val 1
    else if ltb (length text) n
    then err err_parse
    else if not (is_continuation (get_or text 1 0))
    then err err_parse
    else if leb 3 n && not (is_continuation (get_or text 2 0))
    then err err_parse
    else if n == 4 && not (is_continuation (get_or text 3 0))
    then err err_parse
    else check_range text n

unfoldable pub sequence_length : Bytes → Result ℕ
unfolding lead_length check_sequence check_range is_continuation
sequence_length [] = err err_parse
sequence_length (first ∷ rest) = do n ← lead_length first; check_sequence (first ∷ rest) n

-- The loop of `oi_cli_utf8_validate`; the number counts the bytes that `offset` still passes over.
unfoldable pub validate_from : ℕ → Bytes → Status
validate_from skip [] = ok
validate_from (suc skip) (x ∷ xs) = validate_from skip xs
validate_from zero (x ∷ xs) = elim (sequence_length (x ∷ xs)) [
  | val n ↦ validate_from (n - 1) xs
  | err e ↦ e
]

unfoldable pub validate : Bytes → Status
validate text = validate_from 0 text

unfoldable pub next_boundary : Bytes → ℕ → Result ℕ
next_boundary text offset =
    if ltb (length text) offset
    then err err_inval
    else if offset == length text
    then err err_inval
    else (sequence_length (drop offset text) >>= λ n. val (offset + n))

-- `while (start > 0 && is_continuation(data[start])) start--`
unfoldable pub back : Bytes → ℕ → ℕ
back text zero = zero
back text (suc s) = if is_continuation (get_or text (suc s) 0) then back text s else suc s

unfoldable pub previous_boundary : Bytes → ℕ → Result ℕ
unfolding back
previous_boundary text offset =
    if ltb (length text) offset
    then err err_inval
    else if offset == 0
    then err err_inval
    else let start = back text (offset - 1) in
      (sequence_length (take (offset - start) (drop start text)) >>= λ n.
      if start + n == offset then val start else err err_parse)

-- `decode` reads a sequence of the given length; it does not check it.
unfoldable pub decode : Bytes → Result ℕ
decode (a ∷ []) = val a
decode (a ∷ b ∷ []) = val (a % 32 * 64 + b % 64)
decode (a ∷ b ∷ c ∷ []) = val (a % 16 * 4096 + b % 64 * 64 + c % 64)
decode (a ∷ b ∷ c ∷ d ∷ []) = val (a % 8 * 262144 + b % 64 * 4096 + c % 64 * 64 + d % 64)
decode _ = err err_inval

zero_width : ℕ → Bool
zero_width c =
    within 0x0300 0x036f c
    || within 0x200b 0x200f c
    || within 0xfe00 0xfe0f c
    || within 0xfe20 0xfe2f c
    || within 0x20d0 0x20ff c

wide : ℕ → Bool
wide c =
    within 0x1100 0x115f c
    || within 0x2e80 0x303e c
    || within 0x3041 0x33ff c
    || within 0x3400 0x4dbf c
    || within 0x4e00 0x9fff c
    || within 0xa000 0xa4cf c
    || within 0xac00 0xd7a3 c
    || within 0xf900 0xfaff c
    || within 0xff00 0xff60 c
    || within 0xffe0 0xffe6 c
    || within 0x20000 0x2fffd c
    || within 0x30000 0x3fffd c

unfoldable pub codepoint_width : ℕ → ℕ
unfolding zero_width wide
codepoint_width c =
    if leb c 0x1f || c == 0x7f then 0 else if zero_width c then 0 else if wide c then 2 else 1
