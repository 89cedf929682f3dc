-- ===== src/Bytebuf.antt =====
-- src/cli_bytebuf.c: the growable byte buffer that every output goes through.
-- `realloc` is a parameter: `grants n` tells whether a request for n bytes succeeds. One buffer asks
-- for a larger size each time, so a function of the size is as free as the allocator is.
pub mod Laws
use oi_c.Prelude.{
  ℕ, zero, suc, ◌+◌, ◌-◌, ◌*◌, ◌/◌, Bool, true, false, [], ◌++◌, ltb, leb, ◌==◌, if◌then◌else◌,
  length, Bytes, size_max,
}
use oi_c.Status.{Status, ok, err_nomem}

-- `contents` is data[0 .. len); `cap` is 0 while data is NULL.
pub record Bytebuf : Type 0 where
  pub contents : Bytes
  pub cap : ℕ

unfoldable pub init : Bytebuf
init = record { contents = []; cap = 0 }

-- `oi_cli_bytebuf_reset` keeps the allocation, `oi_cli_bytebuf_free` gives it back.
unfoldable pub reset : Bytebuf → Bytebuf
reset b = record b { contents = [] }

unfoldable pub free : Bytebuf → Bytebuf
free b = record { contents = []; cap = 0 }

-- How the doubling loop ends; `unfinished` stands for a loop that is still running.
pub data Growth : Type 0 where
  grown : ℕ → Growth
  overflow unfinished : Growth

unfoldable pub grow : ℕ → ℕ → ℕ → Growth
grow zero cap required = if ltb cap required then unfinished else grown cap
grow (suc fuel) cap required =
    let rest = grow fuel (cap * 2) required in
    if ltb cap required then if ltb (size_max / 2) cap then overflow else rest else grown cap

-- With the new capacity at hand: the `realloc` and the copy.
unfoldable pub enlarge : (ℕ → Bool) → Bytebuf → Bytes → Growth → Status × Bytebuf
enlarge grants b bytes (grown cap) =
    if grants cap
    then (ok, record { contents = b.contents ++ bytes; cap = cap })
    else (err_nomem, b)
enlarge grants b bytes overflow = (err_nomem, b)
enlarge grants b bytes unfinished = (err_nomem, b)

-- Each round of the loop at least adds one, so `required` rounds are enough.
unfoldable pub append : (ℕ → Bool) → Bytebuf → Bytes → Status × Bytebuf
append grants b bytes =
    if ltb (size_max - length b.contents) (length bytes)
    then (err_nomem, b)
    else let required = length b.contents + length bytes in
      if leb required b.cap
      then (ok, record b { contents = b.contents ++ bytes })
      else enlarge grants b bytes (grow required (if b.cap == 0 then 128 else b.cap) required)
