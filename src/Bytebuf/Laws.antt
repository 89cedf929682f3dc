-- ===== src/Bytebuf/Laws.antt =====
-- What a client may know of `append`, with the buffer's growth shut.
use oi_c.Prelude.{
  ℕ, zero, suc, ◌+◌, ◌*◌, ◌/◌, ◌≤◌, ◌<◌, ◌≡◌, ◌⊎◌, inr, refl, Bool, true, ◌++◌, ◌==◌, if◌then◌else◌,
  length, length-append, Bytes, size_max, arith,
}
use oi_c.Status.{Status, ok, err_nomem}
use oi_c.Bytebuf.{Bytebuf, append, grow, Growth, grown, overflow, unfinished, enlarge}

-- The buffer lies within its allocation, and the size of that is a `size_t`.
pub record IsValid (b : Bytebuf) : Type 0 where
  pub fits : length b.contents ≤ b.cap
  pub sized : b.cap ≤ size_max

-- The loop has ended: with a capacity that is enough, or because doubling would overflow.
abbrev pub Ends : ℕ → Growth → Type 0
Ends required (grown c) = (required ≤ c) × (c ≤ size_max)
Ends required overflow = size_max / 2 < required
Ends required unfinished = ⊥

-- `fuel` rounds are enough once `required` is at most `cap + fuel`.
pub grow-Ends :
    (fuel cap required : ℕ)
    → 0 < cap
    → cap ≤ size_max
    → required ≤ cap + fuel
    → Ends required (grow fuel cap required)
unfolding grow
grow-Ends zero cap required p s h = ground arith
grow-Ends (suc fuel) cap required p s h = ground (arith, grow-Ends fuel (cap * 2) required)

-- A call appends all the bytes, or changes nothing and says OI_ERR_NOMEM.
abbrev pub Appended : Bytebuf → Bytes → Status × Bytebuf → Type 0
Appended b bytes r =
    ((r.0 ≡ ok) × (r.1.contents ≡ b.contents ++ bytes)) ⊎ ((r.0 ≡ err_nomem) × (r.1 ≡ b))

module _ (grants : ℕ → Bool) (b : Bytebuf) (bytes : Bytes) where
  enlarge-Appended : (g : Growth) → Appended b bytes (enlarge grants b bytes g)
  unfolding enlarge
  enlarge-Appended (grown c) = ground arith
  enlarge-Appended overflow = inr (refl, refl)
  enlarge-Appended unfinished = inr (refl, refl)

  pub append-Appended : Appended b bytes (append grants b bytes)
  unfolding append
  append-Appended = ground (
    arith,
    enlarge-Appended (
        grow (length b.contents + length bytes) (if b.cap == 0 then 128 else b.cap)
          (length b.contents + length bytes)),
  )

  enlarge-IsValid :
      (g : Growth)
      → IsValid b
      → Ends (length b.contents + length bytes) g
      → IsValid (enlarge grants b bytes g).1
  unfolding enlarge
  enlarge-IsValid (grown c) v e = ground (arith, length-append b.contents bytes)
  enlarge-IsValid overflow v e = v
  enlarge-IsValid unfinished v e = v

  grow_here :
      IsValid b
      → length b.contents + length bytes ≤ size_max
      → Ends (length b.contents + length bytes) (
          grow
            (length b.contents + length bytes)
            (if b.cap == 0 then 128 else b.cap)
            (length b.contents + length bytes))
  grow_here v h = grow-Ends _ _ _ (ground arith) (ground arith) (omega arith)

  pub append-IsValid : IsValid b → IsValid (append grants b bytes).1
  unfolding append
  append-IsValid v = ground (
    arith,
    length-append b.contents bytes,
    enlarge-IsValid
        (grow (length b.contents + length bytes) (if b.cap == 0 then 128 else b.cap)
          (length b.contents + length bytes))
        v,
    grow_here v,
  )

  enlarge-ok :
      (g : Growth)
      → ((n : ℕ) → grants n ≡ true)
      → length b.contents + length bytes ≤ size_max / 2
      → Ends (length b.contents + length bytes) g
      → (enlarge grants b bytes g).0 ≡ ok
  unfolding enlarge
  enlarge-ok (grown c) given h e = ground (arith, given c)
  enlarge-ok overflow given h e = absurd (omega arith)
  enlarge-ok unfinished given h e = absurd e

  -- An append to a valid buffer says OI_OK if the allocator gives memory and the result has at
  -- most half of SIZE_MAX bytes.
  pub append-ok :
      IsValid b
      → ((n : ℕ) → grants n ≡ true)
      → length b.contents + length bytes ≤ size_max / 2
      → (append grants b bytes).0 ≡ ok
  unfolding append
  append-ok v given h = ground (
    arith,
    enlarge-ok
        (grow (length b.contents + length bytes) (if b.cap == 0 then 128 else b.cap)
          (length b.contents + length bytes))
        given h (grow_here v (omega arith)),
  )
