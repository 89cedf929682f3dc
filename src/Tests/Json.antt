-- ===== src/Tests/Json.antt =====
-- The JSON library on a concrete document. A number is its own text here, of which 63 bytes are printed.
use oi_c.Prelude.{
  ℕ, ◌<◌, ◌≤◌, ◌≡◌, ◌⊎◌, refl, Bool, true, false, [], ◌∷◌, ◌++◌, take, length, length-take, Bytes,
  codes, none, some, arith,
}
use oi_c.Arena as A
use oi_c.Arena.Laws.{is_some, alloc-gives}
use oi_c.Json.Attach.{Plenty}
use oi_c.Json.Grammar.{Numeral, natural}
use oi_c.Json.Bounds.{IsValid, feed_document-IsValid}
use oi_c.Json.Calls.{Room}
use oi_c.Json.Errors.{Stuck, feed-Stuck}
use oi_c.Json.Feed.{feed_bytes, feed_again, feed-feed_bytes, feed-append}
use oi_c.Json.Input.{Fits}
use oi_c.Json.Output.{AllNumbers, write_value-render}
use oi_c.Json.Parser.{feed}
use oi_c.Json.RoundTrip.{Parses, write_value-feed}
use oi_c.Json.State as S
use oi_c.Json.Value.{count, Value, boolean, number, string, array, object, nil, cons, end, member}
use oi_c.Json.Walk.{write_value, render, quoted, escaped_all, escape, letter_of, letters}
use oi_c.Json.Writer as W
use oi_c.Json.Writer.{escaped}
use oi_c.Status.{Status, ok, is_ok}

abbrev all_granted : ℕ → Bool
all_granted n = true

abbrev block : ℕ
block = 65536

-- A new arena with the default block size.
abbrev empty : A.Arena
empty = record {
  full = [];
  current = record { capacity = block; used = 0 };
  spare = [];
  block_size = block;
}

-- What it gives at a request.
abbrev from_empty : ℕ → Bool
from_empty n = is_some (A.alloc all_granted empty n).1

from_empty_lem : (n : ℕ) → 0 < n → n ≤ block → from_empty n ≡ true
from_empty_lem n h l = alloc-gives all_granted empty n refl (omega arith) h l

abbrev memory : S.Memory → ℕ → Bool
memory S.heap = all_granted
memory S.arena = from_empty

memory-Plenty : Plenty memory
memory-Plenty = record { from_heap = λ n. refl; from_arena = from_empty_lem }

-- The numeral -12 of the grammar.
abbrev twelve : Numeral
twelve = record {
  negative = true;
  whole =
      natural
        (record {
          first = 49;
          others = 50 ∷ [];
          first_is = (omega arith, omega arith);
          others_are = ((omega arith, omega arith), tt);
        })
        (omega arith);
  fraction = none;
  exponent = none;
}

abbrev format : Bytes → Bytes
format s = take 63 s

abbrev finite : Bytes → Bool
finite s = true

abbrev strtod : Bytes → Bytes × ℕ
strtod s = (s, length s)

format-short : (s : Bytes) → length (format s) < 64
format-short s = omega (arith, length-take 63 s)

-- {"a":[-12,true,"x\n"]}
abbrev document : Value Bytes
document = object (
    member (codes "a")
      (array
        (cons (number (codes "-12")) (cons (boolean true) (cons (string (120 ∷ 10 ∷ [])) nil))))
      end)

abbrev text : Bytes
text = codes "[1,2"

document-Fits : Fits format strtod 0 document
unfolding Fits count
document-Fits =
    let o : 0 < 1000 = omega arith in
    (
      o,
      (
        omega arith,
        (omega arith, omega arith, (((twelve, refl), omega arith, refl), (tt, (omega arith, tt)))),
        tt,
      ),
    )

document-AllNumbers : AllNumbers (λ x. finite x ≡ true) document
unfolding AllNumbers
document-AllNumbers = ((refl, (tt, (tt, tt))), tt)

document-Room : Room (render format document)
unfolding render quoted escaped_all escape letter_of letters
document-Room = omega arith

write_value-feed_example :
    let w = write_value format finite (memory S.heap) document W.create in
    (w.0 ≡ ok) × Parses format finite strtod memory memory-Plenty format-short w.1.contents document
write_value-feed_example =
    write_value-feed format finite strtod memory memory-Plenty format-short document
      document-AllNumbers document-Fits document-Room

write_value-render_example :
    let r = write_value format finite all_granted document W.create in
    (r.0 ≡ ok) × (r.1.contents ≡ render format document) × (r.1.failed ≡ false)
write_value-render_example =
    write_value-render format finite all_granted (λ n. refl) format-short document
      document-AllNumbers document-Room

feed-feed_bytes_example :
    feed strtod memory S.create text ≡ some (feed_bytes strtod memory S.create text)
feed-feed_bytes_example = feed-feed_bytes strtod memory S.create text

feed-append_example :
    feed strtod memory S.create (text ++ text)
    ≡ feed_again strtod memory (feed strtod memory S.create text) text
feed-append_example = feed-append strtod memory text text S.create

create-IsValid : IsValid (S.create {N = Bytes})
unfolding IsValid S.create
create-IsValid =
    (omega arith, omega arith, omega arith, omega arith, omega arith, omega arith, omega arith)

feed_document-IsValid_example :
    (r : Status × S.Parser Bytes) × (feed strtod memory S.create text ≡ some r) × IsValid r.1
feed_document-IsValid_example = feed_document-IsValid strtod memory text S.create create-IsValid

feed-Stuck_example :
    (r : Status × S.Parser Bytes) × (feed strtod memory S.create text ≡ some r)
    × ((is_ok r.0 ≡ true) ⊎ Stuck strtod memory r.1)
feed-Stuck_example = feed-Stuck strtod memory S.create text
