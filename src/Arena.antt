-- ===== src/Arena.antt =====
-- src/arena.c: the bump allocator over a chain of blocks.
-- The chain is cut at `current`: `full` are the blocks from `head` up to it, nearest first, and `spare`
-- those behind it. An address is a block, counted from `head`, and an offset in its data, whose start is
-- aligned. `grants` is the allocator; sizes are far from `SIZE_MAX` where the code does not test them.
pub mod Laws
pub mod Reset
use oi_c.Prelude.{
  ℕ, zero, suc, ◌+◌, ◌-◌, ◌*◌, ◌/◌, Bool, true, false, ◌||◌, List, [], ◌∷◌, ◌++◌, ltb, leb, ◌==◌,
  if◌then◌else◌, length, Option, none, some, size_max,
}

pub record Block : Type 0 where
  pub capacity : ℕ
  pub used : ℕ

pub record Arena : Type 0 where
  pub full : List Block
  pub current : Block
  pub spare : List Block
  pub block_size : ℕ

-- `sizeof(struct oi_block)` and OI_ARENA_ALIGN on x86-64.
abbrev pub header_size : ℕ
header_size = 32

abbrev pub align : ℕ
align = 16

unfoldable pub block_alloc : (ℕ → Bool) → ℕ → Option Block
block_alloc grants capacity =
    if ltb (size_max - header_size) capacity
    then none
    else if grants (header_size + capacity)
    then some (record { capacity = capacity; used = 0 })
    else none

-- `(n + (align - 1)) & ~(align - 1)` for the power of two `align`.
unfoldable pub round_up : ℕ → ℕ
round_up n = (n + (align - 1)) / align * align

unfoldable pub create : (ℕ → Bool) → ℕ → Option Arena
create grants size =
    let s = if size == 0 then 65536 else size in
    elim (block_alloc grants s) [
      | none ↦ none
      | some b ↦ some (record { full = []; current = b; spare = []; block_size = s })
    ]

abbrev pub grown : Arena → Option Block → Option Arena
grown a none = none
grown a (some b) = some (record a { full = a.current ∷ a.full; current = b; spare = [] })

-- `advance_block`, on the blocks behind the current one.
unfoldable pub advance_to : (ℕ → Bool) → Arena → List Block → Option Arena
advance_to grants a [] = grown a (block_alloc grants a.block_size)
advance_to grants a (b ∷ bs) =
    some (record a { full = a.current ∷ a.full; current = b; spare = bs })

unfoldable pub advance_block : (ℕ → Bool) → Arena → Option Arena
advance_block grants a = advance_to grants a a.spare

-- `b->used = aligned + size`, and the address.
unfoldable pub bump : ℕ → ℕ → Arena → Arena × Option (ℕ × ℕ)
bump aligned size a = (
  record a { current = record a.current { used = aligned + size } },
  some (length a.full, aligned),
)

-- A fresh or just-reset block.
abbrev pub moved : Arena → ℕ → Option Arena → Arena × Option (ℕ × ℕ)
moved a size none = (a, none)
moved a size (some b) = bump 0 size b

unfoldable pub alloc : (ℕ → Bool) → Arena → ℕ → Arena × Option (ℕ × ℕ)
alloc grants a size =
    let aligned = round_up a.current.used in
    if size == 0 || ltb a.block_size size
    then (a, none)
    else if ltb a.current.capacity aligned || ltb (a.current.capacity - aligned) size
    then moved a size (advance_block grants a)
    else bump aligned size a

unfoldable pub clear_blocks : List Block → List Block
clear_blocks [] = []
clear_blocks (b ∷ bs) = record b { used = 0 } ∷ clear_blocks bs

-- The blocks in the order of the chain, those of `full` behind one another before `bs`.
unfoldable pub chain : List Block → List Block → List Block
chain [] bs = bs
chain (b ∷ full) bs = chain full (b ∷ bs)

unfoldable pub rewind : Arena → List Block → Arena
rewind a [] = a
rewind a (b ∷ bs) = record a { full = []; current = b; spare = bs }

unfoldable pub reset : Arena → Arena
reset a = rewind a (clear_blocks (chain a.full (a.current ∷ a.spare)))

unfoldable pub total_used : List Block → ℕ
total_used [] = 0
total_used (b ∷ bs) = b.used + total_used bs

unfoldable pub used : Arena → ℕ
used a = total_used (chain a.full (a.current ∷ a.spare))
