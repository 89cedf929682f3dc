-- ===== src/Json/Lookup.antt =====
-- src/json_value.c: what is found again in arrays and objects.
use oi_c.Prelude.{
  ℕ, zero, suc, ◌*◌, ◌<◌, ◌≤◌, ◌≡◌, refl, Bool, true, ◌==◌, if◌then◌else◌, size_max, Option, none,
  some, arith,
}
use oi_c.Json.Attach.{array_push-push}
use oi_c.Json.Value.{Value, array, Items, nil, cons, count, push, array_push, get_item, array_get}

-- The first of two, where there is one.
abbrev pub or_else : {N : Type 0} → Option (Value N) → Option (Value N) → Option (Value N)
or_else none o = o
or_else (some v) o = some v

module _ {N : Type 0} where
  get_item-push :
      (vs : Items N) (v : Value N) (i : ℕ)
      → get_item (push vs v) i ≡ (if i == count vs then some v else get_item vs i)
  unfolding get_item push count
  get_item-push nil v zero = refl
  get_item-push nil v (suc i) = ground arith
  get_item-push (cons w ws) v zero = ground arith
  get_item-push (cons w ws) v (suc i) = ground (arith, get_item-push ws v i)

-- An arena that gives up to `limit` bytes at once.
module _ {N : Type 0} (grants : ℕ → Bool) (limit : ℕ) (top : limit ≤ size_max)
    (gives : (n : ℕ) → 0 < n → n ≤ limit → grants n ≡ true) where
  pub array_get-array_push :
      (vs : Items N) (v : Value N) (i : ℕ)
      → 32 ≤ limit
      → count vs * 16 ≤ limit
      → (ws : Items N) × (array_push grants vs v ≡ some ws)
        × (array_get (array ws) i ≡ (if i == count vs then some v else array_get (array vs) i))
  unfolding array_get
  array_get-array_push vs v i m h =
      (push vs v, array_push-push grants limit top gives vs v m h, get_item-push vs v i)
