-- ===== src/Json/Strings.antt =====
-- src/json_parse.c: the bytes of a string, its escapes and its surrogate pairs.
use oi_c.Prelude.{
  ℕ, ◌+◌, ◌-◌, ◌*◌, Bool, true, false, not, ◌&&◌, ◌||◌, [], ◌∷◌, ltb, ◌==◌, within, if◌then◌else◌,
  Option, none, some,
}
use oi_c.Http.{hex_digit}
use oi_c.Json.State.{
  Memory, arena, in_string, in_escape, in_unicode, Parser, fail, str_buf_append_bytes,
  attach_completed, attach_completed_key,
}
use oi_c.Json.Value.{Value, new_string}
use oi_c.Status.{Status, ok, err_nomem, err_parse}
use oi_c.Utf8.Encode.{emit_utf8}

-- The byte that an escape letter stands for; `u` is apart.
unfoldable pub mapped : ℕ → Option ℕ
mapped c =
    if c == b'"'
    then some 34
    else if c == 92
    then some 92
    else if c == b'/'
    then some 47
    else if c == b'b'
    then some 8
    else if c == b'f'
    then some 12
    else if c == b'n'
    then some 10
    else if c == b'r'
    then some 13
    else if c == b't'
    then some 9
    else none

-- 0x10000 + ((high - 0xD800) << 10) + (low - 0xDC00), for a high and a low surrogate.
abbrev pub combined : ℕ → ℕ → ℕ
combined high low = 65536 + (high - 55296) * 1024 + (low - 56320)

module _ {N : Type 0} (grants : Memory → ℕ → Bool) where
  abbrev pub attach_new : Parser N → Option (Value N) → Status × Parser N
  attach_new p none = fail p err_nomem
  attach_new p (some v) = attach_completed grants p v

  unfoldable pub finalize_string_value : Parser N → Status × Parser N
  finalize_string_value p =
      if p.parsing_key
      then attach_completed_key grants p
      else attach_new p (new_string (grants arena) p.text)

  unfoldable pub handle_string_byte : Parser N → ℕ → Status × Parser N
  handle_string_byte p c =
      if c == b'"'
      then if p.pending_high_surrogate then fail p err_parse else finalize_string_value p
      else if c == 92
      then (ok, record p { state = in_escape })
      else if p.pending_high_surrogate
      then fail p err_parse
      else if ltb c 32
      then fail p err_parse
      else str_buf_append_bytes grants p (c ∷ [])

  -- The part of `handle_string_escape_byte` behind the `switch`.
  abbrev pub unescape : Parser N → Option ℕ → Status × Parser N
  unescape p none = fail p err_parse
  unescape p (some m) = str_buf_append_bytes grants (record p { state = in_string }) (m ∷ [])

  unfoldable pub handle_string_escape_byte : Parser N → ℕ → Status × Parser N
  handle_string_escape_byte p c =
      if p.pending_high_surrogate && not (c == b'u')
      then fail p err_parse
      else if c == b'u'
      then (ok, record p { state = in_unicode; unicode_value = 0; unicode_hex_count = 0 })
      else unescape p (mapped c)

  -- The four digits are there.
  unfoldable pub finish_unicode : Parser N → ℕ → Status × Parser N
  finish_unicode p cp =
      if p.pending_high_surrogate
      then (if ltb cp 56320 || ltb 57343 cp
          then fail p err_parse
          else str_buf_append_bytes grants (record p { pending_high_surrogate = false })
              (emit_utf8 (combined p.high_surrogate_value cp)))
      else if within 55296 56319 cp
      then (ok, record p { pending_high_surrogate = true; high_surrogate_value = cp })
      else if within 56320 57343 cp
      then fail p err_parse
      else str_buf_append_bytes grants p (emit_utf8 cp)

  -- `(v << 4) | digit`, of a value below 2^28.
  unfoldable pub add_hex : Parser N → Option ℕ → Status × Parser N
  add_hex p none = fail p err_parse
  add_hex p (some digit) =
      let v = p.unicode_value * 16 + digit in
      let q = record p { unicode_value = v; unicode_hex_count = p.unicode_hex_count + 1 } in
      if ltb (p.unicode_hex_count + 1) 4
      then (ok, q)
      else finish_unicode (record q { state = in_string }) v

  unfoldable pub handle_string_unicode_byte : Parser N → ℕ → Status × Parser N
  handle_string_unicode_byte p c = add_hex p (hex_digit c)
