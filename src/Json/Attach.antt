-- ===== src/Json/Attach.antt =====
-- src/json_parse.c and src/json_value.c: completed values, with memory at hand.
use oi_c.Prelude.{
  ℕ, zero, suc, ◌+◌, ◌*◌, ◌/◌, ◌≤◌, ◌<◌, ◌≡◌, inl, inr, refl, Bool, true, false, List, [], ◌∷◌, ltb,
  ◌==◌, if◌then◌else◌, length, Bytes, size_max, Bool-cases, some, arith,
}
use oi_c.Json.State.{
  Memory, heap, arena, Container, array_of, object_of, Frame, Parser, extended, attach_to,
  attach_completed,
}
use oi_c.Json.Steps.{extend, Attached}
use oi_c.Json.Value.{
  Value, Items, Members, count, push, append, capacity, array_push, object_append,
}
use oi_c.Status.{ok}

capacity-bound : (n : ℕ) → capacity n ≤ 2 * n + 4
unfolding capacity
capacity-bound zero = omega arith
capacity-bound (suc n) = ground (arith, capacity-bound n)

-- The arena grants sizes up to that of its default block.
abbrev pub block_size : ℕ
block_size = 65536

-- No array of this many elements.
abbrev pub many : ℕ
many = 4096

-- malloc and realloc give memory, and the arena gives every block that it is made for.
pub record Plenty (grants : Memory → ℕ → Bool) : Type 0 where
  pub from_heap : (n : ℕ) → grants heap n ≡ true
  pub from_arena : (n : ℕ) → 0 < n → n ≤ block_size → grants arena n ≡ true

module _ {N : Type 0} where
  -- There is room for a value more: the C code refuses sizes that overflow.
  abbrev pub Extendable : Container N → Bytes → Type 0
  Extendable (array_of items) key = count items < many
  Extendable (object_of members) key = length key < block_size

  abbrev pub Takes : List (Frame N) → Type 0
  Takes [] = Unit
  Takes (f ∷ fs) = Extendable f.container f.pending_key

  abbrev pub HasCap : Parser N → Type 0
  HasCap p = (0 < p.str_cap) × (p.str_cap ≤ size_max)

-- An arena that gives up to `limit` bytes at once.
module _ {N : Type 0} (grants : ℕ → Bool) (limit : ℕ) (top : limit ≤ size_max)
    (gives : (n : ℕ) → 0 < n → n ≤ limit → grants n ≡ true) where
  pub array_push-push :
      (items : Items N) (v : Value N)
      → 32 ≤ limit
      → count items * 16 ≤ limit
      → array_push grants items v ≡ some (push items v)
  unfolding array_push
  array_push-push items v m h =
      let c = capacity (count items) in
      let g : ℕ = if c == 0 then 4 else c * 2 in
      elim (Bool-cases (count items == c)) [
        | inl e ↦
            let k : ltb (size_max / 2) c ≡ false = ground arith in
            let l : ltb (size_max / 8) g ≡ false = ground arith in
            let a : grants (g * 8) ≡ true = gives (g * 8) (ground arith) (ground arith) in
            simp (e, k, l, a) refl
        | inr e ↦ simp e refl
      ]

  pub object_append-append :
      (members : Members N) (key : Bytes) (v : Value N)
      → 32 ≤ limit
      → length key < limit
      → object_append grants members key v ≡ some (append members key v)
  unfolding object_append
  object_append-append members key v m h =
      let k : (length key == size_max) ≡ false = ground arith in
      let a : grants (length key + 1) ≡ true = gives (length key + 1) (omega arith) (omega arith) in
      let b : grants 32 ≡ true = gives 32 (omega arith) m in simp (k, a, b) refl

module _ {N : Type 0} (grants : Memory → ℕ → Bool) (plenty : Plenty grants) where
  extended-extend :
      (c : Container N) (key : Bytes) (v : Value N)
      → Extendable c key
      → extended grants c key v ≡ some (extend c key v)
  unfolding extended
  extended-extend (array_of items) key v h =
      rw
        (
          extended,
          array_push-push (grants arena) block_size (omega arith) plenty.from_arena items v
              (omega arith) (omega (arith, h)),
        )
        refl
  extended-extend (object_of members) key v h =
      rw
        (
          extended,
          object_append-append (grants arena) block_size (omega arith) plenty.from_arena members key
              v (omega arith) h,
        )
        refl

  pub attach_to-Attached :
      (p : Parser N) (fs : List (Frame N)) (v : Value N)
      → HasCap p
      → Takes fs
      → ((attach_to grants p fs v).0 ≡ ok) × Attached fs v (attach_to grants p fs v).1
  unfolding attach_to
  attach_to-Attached p [] v c h =
      (refl, (record { in_state = refl; stack = refl; positive = c.0; sized = c.1 }, refl))
  attach_to-Attached p (f ∷ fs) v c h =
      simp (extended-extend f.container f.pending_key v h)
        (refl, record { in_state = refl; stack = refl; positive = c.0; sized = c.1 })

  pub attach_completed-Attached :
      (p : Parser N) (fs : List (Frame N)) (v : Value N)
      → p.frames ≡ fs
      → HasCap p
      → Takes fs
      → ((attach_completed grants p v).0 ≡ ok) × Attached fs v (attach_completed grants p v).1
  unfolding attach_completed
  attach_completed-Attached p fs v e c h = simp e (attach_to-Attached p fs v c h)
