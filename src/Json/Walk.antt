-- ===== src/Json/Walk.antt =====
-- test/fuzz/fuzz_json.c, `write_value`: a value put through the writer's calls, and the text that is meant.
use oi_c.Prelude.{
  List, Option, none, some, ltb, ◌==◌, ◌/◌, ◌%◌, get_or, ℕ, Bool, true, false, [], ◌∷◌, ◌++◌,
  if◌then◌else◌, Bytes, codes,
}
use oi_c.Json.Value.{
  Value, Items, Members, null, boolean, number, string, array, object, nil, cons, end, member,
}
use oi_c.Json.Writer.{
  Writer, ◌>>=◌, write_null, write_bool, write_number, write_string, begin_container, end_container,
  write_object_key,
}
use oi_c.Status.{Status, ok}

module _ {N : Type 0} (format : N → Bytes) (finite : N → Bool) (grants : ℕ → Bool) where
  -- The loops over an array's elements and an object's members are functions beside it.
  unfoldable mutual
    pub write_value : Value N → Writer → Status × Writer
    write_value null w = write_null grants w
    write_value (boolean b) w = write_bool grants b w
    write_value (number x) w = write_number format finite grants x w
    write_value (string s) w = write_string grants s w
    write_value (array vs) w =
        begin_container grants false w >>= write_items vs >>= end_container grants false
    write_value (object ms) w =
        begin_container grants true w >>= write_members ms >>= end_container grants true

    pub write_items : Items N → Writer → Status × Writer
    write_items nil w = (ok, w)
    write_items (cons v vs) w = write_value v w >>= write_items vs

    pub write_members : Members N → Writer → Status × Writer
    write_members end w = (ok, w)
    write_members (member key v ms) w =
        write_object_key grants key w >>= write_value v >>= write_members ms

-- The escapes of RFC 8259: seven bytes have a letter, and the other control characters a number.
unfoldable pub letters : List (ℕ × ℕ)
letters =
    (b'"', b'"') ∷ (92, 92) ∷ (8, b'b') ∷ (12, b'f') ∷ (10, b'n') ∷ (13, b'r') ∷ (9, b't') ∷ []

unfoldable pub letter_of : List (ℕ × ℕ) → ℕ → Option ℕ
letter_of [] c = none
letter_of ((k, l) ∷ kls) c = let rest = letter_of kls c in if c == k then some l else rest

unfoldable pub hex : ℕ → ℕ
hex d = get_or (codes "0123456789abcdef") d 0

abbrev pub by_letter : ℕ → Option ℕ → Bytes
by_letter c (some l) = 92 ∷ l ∷ []
by_letter c none =
    if ltb c 32 then 92 ∷ b'u' ∷ b'0' ∷ b'0' ∷ hex (c / 16) ∷ hex (c % 16) ∷ [] else c ∷ []

unfoldable pub escape : ℕ → Bytes
escape c = by_letter c (letter_of letters c)

-- The text of a string, in quotes.
unfoldable pub escaped_all : Bytes → Bytes
escaped_all [] = []
escaped_all (c ∷ cs) = escape c ++ escaped_all cs

unfoldable pub quoted : Bytes → Bytes
quoted s = 34 ∷ (escaped_all s ++ (34 ∷ []))

-- The comma stands in front of every element or member but the first.
abbrev pub comma : Bool → Bytes
comma first = if first then [] else b',' ∷ []

module _ {N : Type 0} (format : N → Bytes) where
  unfoldable mutual
    -- The text of a value, as the grammar of JSON has it.
    pub render : Value N → Bytes
    render null = codes "null"
    render (boolean b) = if b then codes "true" else codes "false"
    render (number x) = format x
    render (string s) = quoted s
    render (array vs) = b'[' ∷ (render_items true vs ++ (b']' ∷ []))
    render (object ms) = b'{' ∷ (render_members true ms ++ (b'}' ∷ []))

    pub render_items : Bool → Items N → Bytes
    render_items first nil = []
    render_items first (cons v vs) = comma first ++ (render v ++ render_items false vs)

    pub render_members : Bool → Members N → Bytes
    render_members first end = []
    render_members first (member key v ms) =
        comma first ++ (quoted key ++ ((b':' ∷ []) ++ (render v ++ render_members false ms)))
