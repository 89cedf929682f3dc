-- ===== src/Json/State.antt =====
-- src/json_parse.c: the parser's state, its string buffer and its stack of open containers.
-- `text` is str_buf[0 .. str_len) and `frames` is frames[0 .. depth), the innermost first; `digits` is
-- num_buf[0 .. num_len).
use oi_c.Prelude.{
  ℕ, ◌+◌, ◌-◌, ◌*◌, Bool, false, List, [], ◌∷◌, ◌++◌, ltb, leb, ◌==◌, if◌then◌else◌, length, Bytes,
  Option, none, some, size_max,
}
use oi_c.Status.{Status, ok, err_nomem, err_parse}
use oi_c.Bytebuf.{Growth, grown, overflow, unfinished, grow}
use oi_c.Json.Value.{Value, Items, Members, array, object, value_size, array_push, object_append}

-- OI_JSON_MAX_DEPTH and OI_JSON_MAX_NUMBER_LEN
abbrev pub max_depth : ℕ
max_depth = 1000

abbrev pub max_number_len : ℕ
max_number_len = 512

-- Who is asked for memory: malloc and realloc, or `oi_arena_alloc`.
pub data Memory : Type 0 where
  heap arena : Memory

-- enum ps_state, without its prefix
pub data State : Type 0 where
  between in_string in_escape in_unicode in_number in_literal done error : State

-- enum frame_expect
pub data Expect : Type 0 where
  elem_or_close elem comma_or_close colon member_value : Expect

-- The kind of a frame with its container.
pub data Container (N : Type 0) : Type 0 where
  array_of : Items N → Container N
  object_of : Members N → Container N

pub record Frame (N : Type 0) : Type 0 where
  pub container : Container N
  pub pending_key : Bytes
  pub expect : Expect

pub record Parser (N : Type 0) : Type 0 where
  pub state : State
  pub root : Option (Value N)
  pub frames : List (Frame N)
  pub frame_cap : ℕ
  pub text : Bytes
  pub str_cap : ℕ
  pub parsing_key : Bool
  pub pending_high_surrogate : Bool
  pub high_surrogate_value : ℕ
  pub unicode_value : ℕ
  pub unicode_hex_count : ℕ
  pub digits : Bytes
  pub literal : Bytes
  pub literal_index : ℕ

-- `sizeof(struct frame)`: an enum, two pointers, a size_t and an enum.
abbrev frame_size : ℕ
frame_size = 40

-- The capacity that `push_frame` asks for.
abbrev pub doubled : ℕ → ℕ
doubled cap = if ltb max_depth (cap * 2) then max_depth else cap * 2

module _ {N : Type 0} where
  unfoldable pub reset : Parser N → Parser N
  reset p = record p {
    state = between;
    root = none;
    frames = [];
    text = [];
    parsing_key = false;
    pending_high_surrogate = false;
    high_surrogate_value = 0;
    unicode_value = 0;
    unicode_hex_count = 0;
    digits = [];
    literal = [];
    literal_index = 0;
  }

  unfoldable pub create : Parser N
  create = record {
    state = between;
    root = none;
    frames = [];
    frame_cap = 16;
    text = [];
    str_cap = 64;
    parsing_key = false;
    pending_high_surrogate = false;
    high_surrogate_value = 0;
    unicode_value = 0;
    unicode_hex_count = 0;
    digits = [];
    literal = [];
    literal_index = 0;
  }

  -- `p->state = PS_ERROR; return e`
  abbrev pub fail : Parser N → Status → Status × Parser N
  fail p e = (e, record p { state = error })

  -- The loop over `new_cap` is that of the byte buffer.
  abbrev pub str_buf_grown : (Memory → ℕ → Bool) → Parser N → Growth → Status × Parser N
  str_buf_grown grants p (grown c) =
      if grants heap c then (ok, record p { str_cap = c }) else (err_nomem, p)
  str_buf_grown grants p overflow = (err_nomem, p)
  str_buf_grown grants p unfinished = (err_nomem, p)

  unfoldable pub str_buf_reserve : (Memory → ℕ → Bool) → Parser N → ℕ → Status × Parser N
  str_buf_reserve grants p additional =
      let needed = length p.text + additional in
      if ltb (size_max - length p.text) additional
      then (err_nomem, p)
      else if leb needed p.str_cap
      then (ok, p)
      else str_buf_grown grants p (grow needed p.str_cap needed)

  abbrev pub appended : Bytes → Status × Parser N → Status × Parser N
  appended bytes (ok, p) = (ok, record p { text = p.text ++ bytes })
  appended bytes (e, p) = fail p e

  unfoldable pub str_buf_append_bytes : (Memory → ℕ → Bool) → Parser N → Bytes → Status × Parser N
  str_buf_append_bytes grants p bytes = appended bytes (str_buf_reserve grants p (length bytes))

  -- The frame that `push_frame` adds.
  abbrev pub new_frame : Container N → Frame N
  new_frame c = record { container = c; pending_key = []; expect = elem_or_close }

  unfoldable pub push_frame : (Memory → ℕ → Bool) → Parser N → Container N → Status × Parser N
  push_frame grants p c =
      let cap = if length p.frames == p.frame_cap then doubled p.frame_cap else p.frame_cap in
      if leb max_depth (length p.frames)
      then fail p err_parse
      else if length p.frames == p.frame_cap
      then (if grants heap (doubled p.frame_cap * frame_size)
          then (if grants arena value_size
              then (ok, record p { frames = new_frame c ∷ p.frames; frame_cap = cap })
              else fail (record p { frame_cap = cap }) err_nomem)
          else fail p err_nomem)
      else if grants arena value_size
      then (ok, record p { frames = new_frame c ∷ p.frames })
      else fail p err_nomem

  -- A container with a value more, `none` for OI_ERR_NOMEM.
  unfoldable pub extended :
      (Memory → ℕ → Bool) → Container N → Bytes → Value N → Option (Container N)
  extended grants (array_of items) key v = elim (array_push (grants arena) items v) [
    | none ↦ none
    | some vs ↦ some (array_of vs)
  ]
  extended grants (object_of members) key v = elim (object_append (grants arena) members key v) [
    | none ↦ none
    | some ms ↦ some (object_of ms)
  ]

  -- Only an object's pending key is taken away.
  abbrev pub key_left : Container N → Bytes → Bytes
  key_left (array_of items) key = key
  key_left (object_of members) key = []

  abbrev pub attached :
      Parser N → Frame N → List (Frame N) → Option (Container N) → Status × Parser N
  attached p f fs none =
      fail
        (record p { frames = record f { pending_key = key_left f.container f.pending_key } ∷ fs })
        err_nomem
  attached p f fs (some c) = (
    ok,
    record p {
      frames =
          record f {
            container = c;
            pending_key = key_left f.container f.pending_key;
            expect = comma_or_close;
          }
          ∷ fs;
      state = between;
    },
  )

  -- `attach_completed`, on the stack.
  unfoldable pub attach_to :
      (Memory → ℕ → Bool) → Parser N → List (Frame N) → Value N → Status × Parser N
  attach_to grants p [] v = (ok, record p { root = some v; state = done; frames = [] })
  attach_to grants p (f ∷ fs) v = attached p f fs (extended grants f.container f.pending_key v)

  unfoldable pub attach_completed : (Memory → ℕ → Bool) → Parser N → Value N → Status × Parser N
  attach_completed grants p v = attach_to grants p p.frames v

  abbrev pub keyed : Parser N → List (Frame N) → Parser N
  keyed p [] = p
  keyed p (f ∷ fs) = record p {
    frames = record f { pending_key = p.text; expect = colon } ∷ fs;
    state = between;
  }

  -- It is called with a frame on the stack.
  unfoldable pub attach_completed_key : (Memory → ℕ → Bool) → Parser N → Status × Parser N
  attach_completed_key grants p =
      if grants arena (length p.text + 1) then (ok, keyed p p.frames) else fail p err_nomem

  abbrev pub closed : Container N → Value N
  closed (array_of items) = array items
  closed (object_of members) = object members

  -- With the frame taken off the stack.
  unfoldable pub pop_container :
      (Memory → ℕ → Bool) → Parser N → Frame N → List (Frame N) → Status × Parser N
  pop_container grants p f fs =
      attach_completed grants (record p { frames = fs }) (closed f.container)
