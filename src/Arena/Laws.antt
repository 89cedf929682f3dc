-- ===== src/Arena/Laws.antt =====
-- What the arena hands out.
use oi_c.Prelude.{
  ℕ, ◌+◌, ◌-◌, ◌%◌, ◌≤◌, ◌≡◌, ◌⊎◌, inl, inr, refl, Bool, ◌||◌, List, [], ◌∷◌, ltb, ◌==◌, length,
  Option, none, some, All, true, false, size_max, ◌<◌, ap, arith, Bool-cases, sym, subst,
}
use oi_c.Arena.{
  Block, Arena, align, header_size, block_alloc, round_up, advance_to, advance_block, bump, moved,
  alloc, grown,
}

abbrev pub is_some : {A : Type 0} → Option A → Bool
is_some none = false
is_some (some x) = true

-- Every block is as large as `block_size` and used within; nothing behind the current one is used.
pub record IsValid (a : Arena) : Type 0 where
  pub positive : 1 ≤ a.block_size
  pub sized : a.current.capacity ≡ a.block_size
  pub fits : a.current.used ≤ a.current.capacity
  pub filled : All (λ b. (b.capacity ≡ a.block_size) × (b.used ≤ b.capacity)) a.full
  pub fresh : All (λ b. (b.capacity ≡ a.block_size) × (b.used ≡ 0)) a.spare

-- The current block of `b` was next in the chain, or it is new and its header and bytes were granted.
abbrev pub Origin : (ℕ → Bool) → Arena → Arena → Type 0
Origin grants a b =
    ((c : Block) × (a.spare ≡ c ∷ b.spare) × (b.current.capacity ≡ c.capacity))
    ⊎ (a.spare ≡ []) × (grants (header_size + b.current.capacity) ≡ true)

-- What a call hands out: `size` bytes at an aligned offset inside a block, behind all that is in use
-- there, in the current block or in an unused one behind it.
abbrev pub Fresh : (ℕ → Bool) → ℕ → Arena → Arena → ℕ × ℕ → Type 0
Fresh grants size a b p =
    (p.1 % align ≡ 0)
    × (p.1 + size ≤ b.current.capacity)
    × (p.0 ≡ length b.full)
    × (b.current.used ≡ p.1 + size)
    × ((b.full ≡ a.full) × (a.current.used ≤ p.1) × (b.current.capacity ≡ a.current.capacity)
        ⊎ (b.full ≡ a.current ∷ a.full) × Origin grants a b)

-- A request that is out of range, or memory that is refused, changes nothing.
abbrev pub Allocated : (ℕ → Bool) → ℕ → Arena → Arena × Option (ℕ × ℕ) → Type 0
Allocated grants size a r =
    (r ≡ (a, none)) ⊎ ((p : ℕ × ℕ) × (r.1 ≡ some p) × Fresh grants size a r.0 p)

round_up-aligned : (n : ℕ) → round_up n % align ≡ 0
unfolding round_up
round_up-aligned n = omega arith

round_up-le : (n : ℕ) → n ≤ round_up n
unfolding round_up
round_up-le n = omega arith

-- The next block, unused, after the current one.
abbrev Advanced : (ℕ → Bool) → Arena → Option Arena → Type 0
Advanced grants a o =
    (o ≡ none)
    ⊎ ((b : Arena) × (o ≡ some b)
        × IsValid b
        × (b.full ≡ a.current ∷ a.full)
        × (b.block_size ≡ a.block_size)
        × Origin grants a b
        × (b.current.used ≡ 0))

block_alloc-cases :
    (grants : ℕ → Bool) (n : ℕ)
    → (block_alloc grants n ≡ none)
      ⊎ (block_alloc grants n ≡ some (record { capacity = n; used = 0 }))
        × (grants (header_size + n) ≡ true)
unfolding block_alloc
block_alloc-cases grants n = ground arith

advance_to-Advanced :
    (grants : ℕ → Bool) (a : Arena) (spare : List Block)
    → IsValid a
    → All (λ b. (b.capacity ≡ a.block_size) × (b.used ≡ 0)) spare
    → a.spare ≡ spare
    → Advanced grants a (advance_to grants a spare)
unfolding advance_to
advance_to-Advanced grants a [] v h s = elim (block_alloc-cases grants a.block_size) [
  | inl e ↦ rw e (inl refl)
  | inr e ↦ rw e.0 (
      inr (
        record a {
          full = a.current ∷ a.full;
          current = record { capacity = a.block_size; used = 0 };
          spare = [];
        },
        refl,
        record {
          positive = v.positive;
          sized = refl;
          fits = omega arith;
          filled = ((v.sized, v.fits), v.filled);
          fresh = tt;
        },
        refl,
        refl,
        inr (s, e.1),
        refl,
      ))
]
advance_to-Advanced grants a (b ∷ bs) v h s = inr (
  record a { full = a.current ∷ a.full; current = b; spare = bs },
  refl,
  record {
    positive = v.positive;
    sized = h.0.0;
    fits = omega (arith, h.0.1);
    filled = ((v.sized, v.fits), v.filled);
    fresh = h.1;
  },
  refl,
  refl,
  inl (b, s, refl),
  h.0.1,
)

abbrev Settled : (ℕ → Bool) → ℕ → Arena → Arena × Option (ℕ × ℕ) → Type 0
Settled grants size a r = IsValid r.0 × Allocated grants size a r

bump-IsValid :
    (a : Arena) (o size : ℕ) → IsValid a → o + size ≤ a.block_size → IsValid (bump o size a).0
unfolding bump
bump-IsValid a o size v l = record {
  positive = v.positive;
  sized = v.sized;
  fits = omega (arith, v.sized, l);
  filled = v.filled;
  fresh = v.fresh;
}

moved-Settled :
    (grants : ℕ → Bool) (a : Arena) (size : ℕ) (o : Option Arena)
    → IsValid a
    → size ≤ a.block_size
    → Advanced grants a o
    → Settled grants size a (moved a size o)
unfolding bump
moved-Settled grants a size o v l (inl e) = rw e (v, inl refl)
moved-Settled grants a size o v l (inr (b, e, vb, f, s, g, u)) = rw e (
  bump-IsValid b 0 size vb (omega (arith, l, s)),
  inr (
    (length b.full, 0),
    refl,
    (omega arith, omega (arith, l, s, vb.sized), refl, omega arith, inr (f, g)),
  ),
)

module _ (grants : ℕ → Bool) (a : Arena) (size : ℕ) where
  here_lem :
      IsValid a
      → round_up a.current.used + size ≤ a.block_size
      → Settled grants size a (bump (round_up a.current.used) size a)
  unfolding bump
  here_lem v l = (
    bump-IsValid a (round_up a.current.used) size v l,
    inr (
      (length a.full, round_up a.current.used),
      refl,
      (
        round_up-aligned a.current.used,
        omega (arith, l, v.sized),
        refl,
        refl,
        inl (refl, round_up-le a.current.used, refl),
      ),
    ),
  )

  alloc_lem : IsValid a → Settled grants size a (alloc grants a size)
  unfolding alloc advance_block
  alloc_lem v = elim (Bool-cases (size == 0 || ltb a.block_size size)) [
    | inl out ↦ rw out (v, inl refl)
    | inr in_range ↦
        let l : size ≤ a.block_size = ground arith in
        elim (Bool-cases (
          ltb a.current.capacity (round_up a.current.used)
          || ltb (a.current.capacity - round_up a.current.used) size)) [
            | inl no_room ↦
                let step : alloc grants a size ≡ moved a size (advance_to grants a a.spare) =
                  rw (alloc, in_range, no_room) refl in
                subst (Settled grants size a) (sym step) (
                  moved-Settled grants a size (advance_to grants a a.spare) v l
                    (advance_to-Advanced grants a a.spare v v.fresh refl))
            | inr room ↦
                let step : alloc grants a size ≡ bump (round_up a.current.used) size a =
                  rw (alloc, in_range, room) refl in
                subst (Settled grants size a) (sym step) (here_lem v (ground (arith, v.sized)))
          ]
  ]

  -- A call of the allocator in a valid arena leaves a valid one, whatever it returns.
  pub alloc-IsValid : IsValid a → IsValid (alloc grants a size).0
  alloc-IsValid v = (alloc_lem v).0

  -- A call of the allocator in a valid arena changes nothing and gives nothing, or hands out the
  -- requested bytes at an offset aligned to 16, inside the capacity of a block: of the current
  -- one, behind all that is in use there, or of the next, which becomes the current one and was
  -- next in the chain or is new, its header and its capacity granted by malloc.
  pub alloc-Allocated : IsValid a → Allocated grants size a (alloc grants a size)
  alloc-Allocated v = (alloc_lem v).1

block_alloc-gives :
    (grants : ℕ → Bool) (n : ℕ)
    → grants (header_size + n) ≡ true
    → n + header_size ≤ size_max
    → block_alloc grants n ≡ some (record { capacity = n; used = 0 })
unfolding block_alloc
block_alloc-gives grants n g h =
    let e : ltb (size_max - header_size) n ≡ false = ground arith in simp (e, g) refl

advance_to-gives :
    (grants : ℕ → Bool) (a : Arena) (spare : List Block)
    → grants (header_size + a.block_size) ≡ true
    → a.block_size + header_size ≤ size_max
    → (b : Arena) × (advance_to grants a spare ≡ some b)
unfolding advance_to
advance_to-gives grants a [] g h = (_, ap (grown a) (block_alloc-gives grants a.block_size g h))
advance_to-gives grants a (b ∷ bs) g h = (_, refl)

-- Where a block would be granted, a request from 1 to the block size is given memory.
pub alloc-gives :
    (grants : ℕ → Bool) (a : Arena) (size : ℕ)
    → grants (header_size + a.block_size) ≡ true
    → a.block_size + header_size ≤ size_max
    → 0 < size
    → size ≤ a.block_size
    → is_some (alloc grants a size).1 ≡ true
unfolding alloc advance_block bump
alloc-gives grants a size g h z l =
    let o : (size == 0 || ltb a.block_size size) ≡ false = ground arith in
    let n = advance_to-gives grants a a.spare g h in
    elim (Bool-cases (
      ltb a.current.capacity (round_up a.current.used)
      || ltb (a.current.capacity - round_up a.current.used) size)) [
        | inl e ↦ simp (o, e, n.1) refl
        | inr e ↦ simp (o, e) refl
      ]
