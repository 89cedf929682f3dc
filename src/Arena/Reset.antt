-- ===== src/Arena/Reset.antt =====
-- A reset keeps the blocks and frees all of their memory.
use oi_c.Prelude.{ℕ, ◌≤◌, ◌≡◌, refl, List, [], ◌∷◌, All, arith}
use oi_c.Arena.{Block, Arena, clear_blocks, chain, rewind, reset, total_used, used}
use oi_c.Arena.Laws.{IsValid}

total_used-clear_blocks : (bs : List Block) → total_used (clear_blocks bs) ≡ 0
unfolding total_used clear_blocks
total_used-clear_blocks [] = refl
total_used-clear_blocks (b ∷ bs) = omega (arith, total_used-clear_blocks bs)

rewind-used :
    (a : Arena) (full : List Block) (b : Block) (bs : List Block)
    → used (rewind a (clear_blocks (chain full (b ∷ bs)))) ≡ 0
unfolding used rewind chain clear_blocks total_used
rewind-used a [] b bs = omega (arith, total_used-clear_blocks bs)
rewind-used a (c ∷ full) b bs = rewind-used a full c (b ∷ bs)

-- After a reset nothing is in use.
pub used-reset : (a : Arena) → used (reset a) ≡ 0
unfolding reset
used-reset a = rewind-used a a.full a.current a.spare

-- Blocks of one capacity.
abbrev Sized : ℕ → List Block → Type 0
Sized n bs = All (λ b. b.capacity ≡ n) bs

clear_blocks-Sized :
    (n : ℕ) (bs : List Block)
    → Sized n bs
    → All (λ b. (b.capacity ≡ n) × (b.used ≡ 0)) (clear_blocks bs)
unfolding clear_blocks
clear_blocks-Sized n [] h = tt
clear_blocks-Sized n (b ∷ bs) h = ((h.0, refl), clear_blocks-Sized n bs h.1)

rewind-IsValid :
    (a : Arena) (full : List Block) (b : Block) (bs : List Block)
    → 1 ≤ a.block_size
    → Sized a.block_size full
    → Sized a.block_size (b ∷ bs)
    → IsValid (rewind a (clear_blocks (chain full (b ∷ bs))))
unfolding rewind chain clear_blocks
rewind-IsValid a [] b bs p f h = record {
  positive = p;
  sized = h.0;
  fits = omega arith;
  filled = tt;
  fresh = clear_blocks-Sized a.block_size bs h.1;
}
rewind-IsValid a (c ∷ full) b bs p f h = rewind-IsValid a full c (b ∷ bs) p f.1 (f.0, h)

Sized-filled :
    (n : ℕ) (bs : List Block) → All (λ b. (b.capacity ≡ n) × (b.used ≤ b.capacity)) bs → Sized n bs
Sized-filled n [] h = tt
Sized-filled n (b ∷ bs) h = (h.0.0, Sized-filled n bs h.1)

Sized-fresh : (n : ℕ) (bs : List Block) → All (λ b. (b.capacity ≡ n) × (b.used ≡ 0)) bs → Sized n bs
Sized-fresh n [] h = tt
Sized-fresh n (b ∷ bs) h = (h.0.0, Sized-fresh n bs h.1)

-- A reset of a valid arena leaves a valid arena: all blocks of the one size, none in use behind
-- the current one.
pub reset-IsValid : (a : Arena) → IsValid a → IsValid (reset a)
unfolding reset
reset-IsValid a v =
    rewind-IsValid a a.full a.current a.spare v.positive (Sized-filled a.block_size a.full v.filled)
      (v.sized, Sized-fresh a.block_size a.spare v.fresh)
