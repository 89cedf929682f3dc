-- ===== src/Json/Writer.antt =====
-- src/json_write.c: the serializer.
-- `contents` is buf[0 .. len), and `frames` is frames[0 .. frame_count), the innermost first. `format` is
-- the C library's "%.17g" and `finite` its `isfinite`; `grants n` tells whether `realloc` gives n bytes.
use oi_c.Prelude.{
  ℕ, ◌+◌, ◌-◌, ◌*◌, ◌/◌, ◌%◌, Bool, true, false, not, ◌&&◌, ◌||◌, List, [], ◌∷◌, ◌++◌, ltb, leb,
  ◌==◌, if◌then◌else◌, length, Bytes, codes, size_max,
}
use oi_c.Bytebuf.{Growth, grown, overflow, unfinished, grow}
use oi_c.Status.{Status, ok, err_nomem, err_inval}

-- struct frame; `written` is `count`.
pub record Frame : Type 0 where
  pub is_object : Bool
  pub written : ℕ
  pub awaiting_value : Bool

pub record Writer : Type 0 where
  pub contents : Bytes
  pub cap : ℕ
  pub frames : List Frame
  pub frame_cap : ℕ
  pub have_root : Bool
  pub failed : Bool

unfoldable pub create : Writer
create = record {
  contents = [];
  cap = 64;
  frames = [];
  frame_cap = 8;
  have_root = false;
  failed = false;
}

-- A call behind one that said OI_OK.
infixl 5 ◌>>=◌
abbrev pub ◌>>=◌ : Status × Writer → (Writer → Status × Writer) → Status × Writer
(ok, w) >>= f = f w
(e, w) >>= f = (e, w)

-- `w->failed = 1; return OI_ERR_INVAL`
abbrev pub misuse : Writer → Status × Writer
misuse w = (err_inval, record w { failed = true })

-- `sizeof(struct frame)`, with its padding.
abbrev frame_size : ℕ
frame_size = 24

-- `a != b`, of two truth values.
abbrev pub differ : Bool → Bool → Bool
differ true b = not b
differ false b = b

-- "%04x"
abbrev pub hex_char : ℕ → ℕ
hex_char d = if ltb d 10 then 48 + d else 87 + d

-- What the `switch` of `append_escaped_string` puts out for a byte.
unfoldable pub escaped : ℕ → Bytes
escaped c =
    if c == b'"'
    then 92 ∷ 34 ∷ []
    else if c == 92
    then 92 ∷ 92 ∷ []
    else if c == 8
    then 92 ∷ b'b' ∷ []
    else if c == 12
    then 92 ∷ b'f' ∷ []
    else if c == 10
    then 92 ∷ b'n' ∷ []
    else if c == 13
    then 92 ∷ b'r' ∷ []
    else if c == 9
    then 92 ∷ b't' ∷ []
    else if ltb c 32
    then 92 ∷ b'u' ∷ 48 ∷ 48 ∷ hex_char (c / 16) ∷ hex_char (c % 16) ∷ []
    else c ∷ []

abbrev pub end_in : Writer → List Frame → Writer
end_in w [] = record w { have_root = true }
end_in w (f ∷ fs) = record w {
  frames = record f { written = f.written + 1; awaiting_value = false } ∷ fs;
}

unfoldable pub end_value : Writer → Writer
end_value w = end_in w w.frames

abbrev pub ended : Status × Writer → Status × Writer
ended r = r >>= λ w. (ok, end_value w)

abbrev pub opening : Bool → Bytes
opening object = (if object then b'{' else b'[') ∷ []

abbrev pub closing : Bool → Bytes
closing object = (if object then b'}' else b']') ∷ []

-- The key of a frame is written, and its value is due.
abbrev pub awaiting : List Frame → Writer → Status × Writer
awaiting [] v = (ok, v)
awaiting (f ∷ fs) v = (ok, record v { frames = record f { awaiting_value = true } ∷ fs })

module _ (grants : ℕ → Bool) where
  abbrev pub buf_grown : Writer → Growth → Status × Writer
  buf_grown w (grown c) = if grants c then (ok, record w { cap = c }) else (err_nomem, w)
  buf_grown w overflow = (err_nomem, w)
  buf_grown w unfinished = (err_nomem, w)

  -- One byte more is for the NUL at the end.
  unfoldable pub ensure_buf : Writer → ℕ → Status × Writer
  ensure_buf w additional =
      let needed = length w.contents + additional + 1 in
      if ltb (size_max - length w.contents - 1) additional
      then (err_nomem, w)
      else if leb needed w.cap
      then (ok, w)
      else buf_grown w (grow needed w.cap needed)

  unfoldable pub append_bytes : Bytes → Writer → Status × Writer
  append_bytes bytes w =
      ensure_buf w (length bytes) >>= λ v. (ok, record v { contents = v.contents ++ bytes })

  unfoldable pub push_frame : Bool → Writer → Status × Writer
  push_frame object w =
      let f : Frame = record { is_object = object; written = 0; awaiting_value = false } in
      if length w.frames == w.frame_cap
      then (if ltb (size_max / 2 / frame_size) w.frame_cap
          then (err_nomem, w)
          else if grants (w.frame_cap * 2 * frame_size)
          then (ok, record w { frames = f ∷ w.frames; frame_cap = w.frame_cap * 2 })
          else (err_nomem, w))
      else (ok, record w { frames = f ∷ w.frames })

  abbrev pub begin_in : Writer → List Frame → Status × Writer
  begin_in w [] = if w.have_root then misuse w else (ok, w)
  begin_in w (f ∷ fs) =
      if f.is_object
      then if f.awaiting_value then (ok, w) else misuse w
      else if ltb 0 f.written
      then append_bytes (b',' ∷ []) w
      else (ok, w)

  unfoldable pub begin_value : Writer → Status × Writer
  begin_value w = if w.failed then (err_inval, w) else begin_in w w.frames

  -- The loop of `append_escaped_string`.
  unfoldable pub append_escaped : Bytes → Writer → Status × Writer
  append_escaped [] w = (ok, w)
  append_escaped (c ∷ cs) w = append_bytes (escaped c) w >>= append_escaped cs

  unfoldable pub append_escaped_string : Bytes → Writer → Status × Writer
  append_escaped_string s w =
      if ltb ((size_max - 2) / 6) (length s)
      then (err_nomem, w)
      else append_bytes (34 ∷ []) w >>= append_escaped s >>= append_bytes (34 ∷ [])

  unfoldable pub write_null : Writer → Status × Writer
  write_null w = ended (begin_value w >>= append_bytes (codes "null"))

  unfoldable pub write_bool : Bool → Writer → Status × Writer
  write_bool b w =
      ended (begin_value w >>= append_bytes (if b then codes "true" else codes "false"))

  unfoldable pub write_string : Bytes → Writer → Status × Writer
  write_string s w = ended (begin_value w >>= append_escaped_string s)

  unfoldable pub begin_container : Bool → Writer → Status × Writer
  begin_container object w =
      begin_value w >>= append_bytes (opening object) >>= λ v. push_frame object (end_value v)

  abbrev pub close_in : Bool → Writer → List Frame → Status × Writer
  close_in object w [] = misuse w
  close_in object w (f ∷ fs) =
      if differ f.is_object object || (f.is_object && f.awaiting_value)
      then misuse w
      else append_bytes (closing object) w >>= λ v. (ok, end_value (record v { frames = fs }))

  unfoldable pub end_container : Bool → Writer → Status × Writer
  end_container object w = if w.failed then (err_inval, w) else close_in object w w.frames

  abbrev pub key_in : Bytes → Writer → List Frame → Status × Writer
  key_in key w [] = misuse w
  key_in key w (f ∷ fs) =
      if not f.is_object || f.awaiting_value
      then misuse w
      else (if ltb 0 f.written then append_bytes (b',' ∷ []) w else (ok, w))
        >>= append_escaped_string key
        >>= append_bytes (b':' ∷ [])
        >>= awaiting (f ∷ fs)

  unfoldable pub write_object_key : Bytes → Writer → Status × Writer
  write_object_key key w = if w.failed then (err_inval, w) else key_in key w w.frames

module _ {N : Type 0} (format : N → Bytes) (finite : N → Bool) (grants : ℕ → Bool) where
  -- `tmp` has 64 bytes.
  unfoldable pub write_number : N → Writer → Status × Writer
  write_number x w =
      if not (finite x)
      then (err_inval, w)
      else begin_value grants w >>= λ v.
          if leb 64 (length (format x))
          then (err_inval, v)
          else ended (append_bytes grants (format x) v)
