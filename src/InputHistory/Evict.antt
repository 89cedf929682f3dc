-- ===== src/InputHistory/Evict.antt =====
-- What `oi_cli_input_history_append` keeps, and the bounds of the history.
use oi_c.Prelude.{
  ◌⊎◌, ℕ, zero, suc, ◌+◌, ◌-◌, ◌≤◌, ◌<◌, ◌≡◌, inl, inr, refl, ◌||◌, List, [], ◌∷◌, ◌++◌, ltb, leb,
  length, drop, Bytes, arith, Bool-cases,
}
use oi_c.InputHistory.{History, max_entries, max_text, remove_oldest}

-- The bytes of all entries.
unfoldable pub total : List Bytes → ℕ
total [] = 0
total (e ∷ es) = length e + total es

pub total-append : (xs : List Bytes) (t : Bytes) → total (xs ++ (t ∷ [])) ≡ total xs + length t
unfolding total
total-append [] t = omega arith
total-append (x ∷ xs) t = omega (arith, total-append xs t)

-- At most 256 entries of 4 MiB together, counted right; a walk stays inside them.
pub record IsValid (h : History) : Type 0 where
  pub few : length h.entries ≤ max_entries
  pub counted : h.bytes ≡ total h.entries
  pub small : h.bytes ≤ max_text
  pub inside : h.navigation_index ≤ length h.entries
  pub held : length h.entries ≤ h.cap
  pub room : h.cap ≤ max_entries

-- There is no need to drop an entry from `es` before a text of `n` bytes comes.
abbrev pub Fits : ℕ → List Bytes → Type 0
Fits n [] = Unit
Fits n (e ∷ es) = (length (e ∷ es) < max_entries) × (total (e ∷ es) + n ≤ max_text)

-- What `remove_oldest` leaves of `es`, entry by entry.
Dropped : ℕ → List Bytes → Type 0
Dropped n es =
    (k : ℕ) × (k ≤ length es)
    × (remove_oldest n es (total es) ≡ (drop k es, total (drop k es)))
    × Fits n (drop k es)
    × ((j : ℕ) → j < k → ¬ Fits n (drop j es))

earlier :
    (n k : ℕ) (e : Bytes) (es : List Bytes)
    → ¬ Fits n (e ∷ es)
    → ((j : ℕ) → j < k → ¬ Fits n (drop j es))
    → (j : ℕ) → j < suc k
    → ¬ Fits n (drop j (e ∷ es))
earlier n k e es ne h zero l = ne
earlier n k e es ne h (suc j) l = h j (omega arith)

remove_oldest-cons :
    (n : ℕ) (e : Bytes) (es : List Bytes) → n ≤ max_text → Dropped n es → Dropped n (e ∷ es)
unfolding remove_oldest total Dropped
remove_oldest-cons n e es l (k, m, q, f, h) =
    elim (Bool-cases
      (leb max_entries (suc (length es)) || ltb (max_text - n) (length e + total es))) [
        | inl over ↦
            let rest : length e + total es - length e ≡ total es = omega arith in
            let ne : ¬ Fits n (e ∷ es) = λ f'. ground arith in
            (suc k, omega (arith, m), rw (over, rest) q, f, earlier n k e es ne h)
        | inr fits ↦ (0, omega arith, rw fits refl, ground arith, λ j l' f'. ground arith)
      ]

fewest :
    (n : ℕ) (es : List Bytes) (k : ℕ)
    → ((j : ℕ) → j < k → ¬ Fits n (drop j es))
    → (k ≡ 0) ⊎ ¬ Fits n (drop (k - 1) es)
fewest n es zero h = inl refl
fewest n es (suc k) h = inr (h (suc k - 1) (omega arith))

remove_oldest_all :
    (n : ℕ) (es : List Bytes)
    → n ≤ max_text
    → (k : ℕ) × (k ≤ length es)
      × (remove_oldest n es (total es) ≡ (drop k es, total (drop k es)))
      × Fits n (drop k es)
      × ((j : ℕ) → j < k → ¬ Fits n (drop j es))
unfolding remove_oldest total Dropped
remove_oldest_all n [] l = (0, omega arith, refl, tt, λ j h f. ground arith)
remove_oldest_all n (e ∷ es) l = remove_oldest-cons n e es l (remove_oldest_all n es l)

-- For a text of at most 4 MiB the entries that go are the oldest; after them the text fits within
-- 256 entries of 4 MiB, the count of bytes is right, and unless none go, with one fewer gone it
-- would not fit.
pub remove_oldest_lem :
    (n : ℕ) (es : List Bytes)
    → n ≤ max_text
    → (k : ℕ) × (k ≤ length es)
      × (remove_oldest n es (total es) ≡ (drop k es, total (drop k es)))
      × Fits n (drop k es)
      × ((k ≡ 0) ⊎ ¬ Fits n (drop (k - 1) es))
remove_oldest_lem n es l =
    let (k, m, q, f, h) = remove_oldest_all n es l in (k, m, q, f, fewest n es k h)
