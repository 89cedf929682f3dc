-- ===== src/Status.antt =====
-- include/oi/status.h: the result codes of every call.
use oi_c.Prelude.{◌≡◌, ◌⊎◌, inl, inr, Bool, true, false, refl}

pub data Status : Type 0 where
  ok err_inval err_nomem err_io err_again err_parse err_closed err_exists : Status
  err_notfound err_denied err_timeout : Status

-- A call that writes through an out parameter on OI_OK only: the value, or the code returned.
pub data Result {ℓ} (A : Type ℓ) : Type ℓ where
  val : A → Result A
  err : Status → Result A

infixl 5 ◌>>=◌
abbrev pub ◌>>=◌ {ℓ κ} : {A : Type ℓ} {B : Type κ} → Result A → (A → Result B) → Result B
val a >>= f = f a
err e >>= f = err e

pub >>=-eq-val {ℓ κ} :
    {A : Type ℓ} {B : Type κ} (m : Result A) (f : A → Result B) {b : B}
    → (m >>= f) ≡ val b
    → (a : A) × (m ≡ val a) × (f a ≡ val b)
>>=-eq-val (val a) f h = (a, refl, h)
>>=-eq-val (err e) f h = cc

pub >>=-eq-err {ℓ κ} :
    {A : Type ℓ} {B : Type κ} (m : Result A) (f : A → Result B) {e : Status}
    → (m >>= f) ≡ err e
    → (m ≡ err e) ⊎ ((a : A) × (m ≡ val a) × (f a ≡ err e))
>>=-eq-err (val a) f h = inr (a, refl, h)
>>=-eq-err (err e) f h = inl cc

-- `status == OI_OK`
abbrev pub is_ok : Status → Bool
is_ok ok = true
is_ok _ = false

pub Result-cases {ℓ} :
    {A : Type ℓ} (m : Result A) → ((a : A) × (m ≡ val a)) ⊎ ((e : Status) × (m ≡ err e))
Result-cases (val a) = inl (a, refl)
Result-cases (err e) = inr (e, refl)
