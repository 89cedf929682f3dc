-- ===== src/Json/Value.antt =====
-- src/json_value.c: the values of a document.
-- A double is a value of any type `N`. An array's `capacity` is the one that its count of pushes has led
-- to. A NULL key of length 0 is the empty key. `grants` tells whether the arena gives n bytes.
use oi_c.Prelude.{
  ℕ, zero, suc, ◌+◌, ◌*◌, ◌/◌, Bool, ◌&&◌, ltb, ◌==◌, if◌then◌else◌, length, Bytes, equal, Option,
  none, some, size_max,
}
use oi_c.Status.{Result, val, err, err_inval}

mutual
  -- struct oi_json_value, by its type.
  pub data Value (N : Type 0) : Type 0 where
    null : Value N
    boolean : Bool → Value N
    number : N → Value N
    string : Bytes → Value N
    array : Items N → Value N
    object : Members N → Value N

  pub data Items (N : Type 0) : Type 0 where
    nil : Items N
    cons : Value N → Items N → Items N

  -- struct oi_json_member
  pub data Members (N : Type 0) : Type 0 where
    end : Members N
    member : Bytes → Value N → Members N → Members N

-- `sizeof(oi_json_value)` and `sizeof(struct oi_json_member)`, with pointers of 64 bits.
abbrev pub value_size : ℕ
value_size = 32

abbrev pub member_size : ℕ
member_size = 32

module _ {N : Type 0} where
  unfoldable pub count : Items N → ℕ
  count nil = 0
  count (cons v vs) = suc (count vs)

  unfoldable pub push : Items N → Value N → Items N
  push nil v = cons v nil
  push (cons w ws) v = cons w (push ws v)

  unfoldable pub append : Members N → Bytes → Value N → Members N
  append end key v = member key v end
  append (member k w ms) key v = member k w (append ms key v)

  -- `oi_json_new_null`, `oi_json_new_bool` and `oi_json_new_number`
  unfoldable pub new_scalar : (ℕ → Bool) → Value N → Option (Value N)
  new_scalar grants v = if grants value_size then some v else none

  unfoldable pub new_string : (ℕ → Bool) → Bytes → Option (Value N)
  new_string grants text =
      if length text == size_max
      then none
      else if grants value_size && grants (length text + 1)
      then some (string text)
      else none

-- The capacity of an array after `n` pushes.
unfoldable pub capacity : ℕ → ℕ
capacity zero = 0
capacity (suc n) = let c = capacity n in if n == c then if c == 0 then 4 else c * 2 else c

module _ {N : Type 0} where
  -- `none` is OI_ERR_NOMEM.
  unfoldable pub array_push : (ℕ → Bool) → Items N → Value N → Option (Items N)
  array_push grants items item =
      let c = capacity (count items) in
      let grown = if c == 0 then 4 else c * 2 in
      if count items == c
      then (if ltb (size_max / 2) c
          then none
          else if ltb (size_max / 8) grown
          then none
          else if grants (grown * 8)
          then some (push items item)
          else none)
      else some (push items item)

  unfoldable pub object_append : (ℕ → Bool) → Members N → Bytes → Value N → Option (Members N)
  object_append grants members key v =
      if length key == size_max
      then none
      else if grants (length key + 1) && grants member_size
      then some (append members key v)
      else none

  unfoldable pub get_bool : Value N → Result Bool
  get_bool (boolean b) = val b
  get_bool _ = err err_inval

  unfoldable pub get_number : Value N → Result N
  get_number (number x) = val x
  get_number _ = err err_inval

  unfoldable pub get_string : Value N → Result Bytes
  get_string (string s) = val s
  get_string _ = err err_inval

  unfoldable pub array_len : Value N → ℕ
  array_len (array vs) = count vs
  array_len _ = 0

  unfoldable pub get_item : Items N → ℕ → Option (Value N)
  get_item nil i = none
  get_item (cons v vs) zero = some v
  get_item (cons v vs) (suc i) = get_item vs i

  unfoldable pub array_get : Value N → ℕ → Option (Value N)
  array_get (array vs) i = get_item vs i
  array_get _ i = none

  unfoldable pub count_members : Members N → ℕ
  count_members end = 0
  count_members (member k v ms) = suc (count_members ms)

  unfoldable pub object_len : Value N → ℕ
  object_len (object ms) = count_members ms
  object_len _ = 0

  unfoldable pub find_member : Members N → Bytes → Option (Value N)
  find_member end key = none
  find_member (member k v ms) key =
      let rest = find_member ms key in if equal k key then some v else rest

  unfoldable pub object_get : Value N → Bytes → Option (Value N)
  object_get (object ms) key = find_member ms key
  object_get _ key = none
