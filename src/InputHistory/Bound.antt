-- ===== src/InputHistory/Bound.antt =====
-- The bounds that every call keeps, and what a call of `append` keeps of the entries.
use oi_c.Prelude.{
  ℕ, ◌+◌, ◌*◌, ◌≤◌, ◌<◌, ◌≡◌, ◌≢◌, ◌⊎◌, inl, inr, refl, Bool, true, false, List, [], ◌∷◌, ◌++◌, ltb,
  if◌then◌else◌, length, length-append, length-drop, drop, Bytes, arith, sym, ap, ◌∙◌, Bool-cases,
  subst,
}
use oi_c.Status.{Status, ok, err_nomem, is_ok}
use oi_c.InputHistory.{
  History, max_entries, max_text, validate_text, remove_oldest, make_room, reserve_entries, push,
  reset_navigation, is_newest, append, new_cap, step_back, previous, next,
}
use oi_c.InputHistory.Evict.{total, total-append, Fits, IsValid, remove_oldest_lem}
use oi_c.InputHistory.Walk.{begun}

-- The history with the oldest `k` entries gone.
abbrev pub without : ℕ → History → History
without k h = record h { entries = drop k h.entries; bytes = total (drop k h.entries) }

Fits-bounds :
    (n : ℕ) (es : List Bytes)
    → n ≤ max_text
    → Fits n es
    → (length es < max_entries) × (total es + n ≤ max_text)
unfolding total
Fits-bounds n [] l f = ground arith
Fits-bounds n (e ∷ es) l f = f

make_room_lem :
    (h : History) (n : ℕ)
    → IsValid h
    → n ≤ max_text
    → (k : ℕ) × (k ≤ length h.entries)
      × (make_room h n ≡ without k h)
      × (length (drop k h.entries) < max_entries)
      × (total (drop k h.entries) + n ≤ max_text)
unfolding make_room
make_room_lem h n v l =
    let (k, m, q, f, _) = remove_oldest_lem n h.entries l in
    let b = Fits-bounds n (drop k h.entries) l f in
    (
      k,
      m,
      ap (λ r. record h { entries = r.0; bytes = r.1 })
          (ap (remove_oldest n h.entries) v.counted ∙ q),
      b.0,
      b.1,
    )

push-IsValid :
    (h : History) (text : Bytes)
    → length h.entries < max_entries
    → h.bytes ≡ total h.entries
    → h.bytes + length text ≤ max_text
    → length h.entries < h.cap
    → h.cap ≤ max_entries
    → IsValid (push text h)
unfolding push reset_navigation
push-IsValid h text f c s e r =
    ground (arith, length-append h.entries (text ∷ []), total-append h.entries text)

validate_text-length :
    (text : Bytes) (b : Bool) → is_ok (validate_text text b) ≡ true → length text ≤ max_text
unfolding validate_text
validate_text-length text b h = ground arith

reset_navigation-IsValid : (h : History) → IsValid h → IsValid (reset_navigation h)
unfolding reset_navigation
reset_navigation-IsValid h v = ground arith

step_back-IsValid : (h : History) → IsValid h → IsValid (step_back h).1
unfolding step_back
step_back-IsValid h v = ground arith

begun-IsValid : (h : History) (text : Bytes) → IsValid h → IsValid (begun h text)
begun-IsValid h text v = ground arith

-- Every walk stays inside the entries.
pub next-IsValid : (h : History) → IsValid h → IsValid (next h).1
unfolding next
next-IsValid h v = ground arith

pub previous-IsValid :
    (grants : ℕ → Bool) (h : History) (text : Bytes)
    → IsValid h
    → IsValid (previous grants h text).1
unfolding previous
previous-IsValid grants h text v =
    ground (arith, step_back-IsValid h v, step_back-IsValid (begun h text) (begun-IsValid h text v))

-- What `reserve_entries` leaves: an entry more than there are, or nothing new.
abbrev Reserved : History → Status × History → Type 0
Reserved g r =
    ((c : ℕ) × (r ≡ (ok, record g { cap = c })) × (length g.entries < c) × (c ≤ max_entries))
    ⊎ ((r ≡ (err_nomem, g)) × (g.cap ≤ length g.entries))

reserve_entries-Reserved :
    (grants : ℕ → Bool) (g : History)
    → length g.entries < max_entries
    → length g.entries ≤ g.cap
    → g.cap ≤ max_entries
    → Reserved g (reserve_entries grants g)
unfolding reserve_entries
reserve_entries-Reserved grants g f e r = elim (Bool-cases (ltb (length g.entries) g.cap)) [
  | inl room ↦ inl (g.cap, rw room refl, ground arith, r)
  | inr full ↦ elim (Bool-cases (grants (new_cap g.cap * 16))) [
    | inl more ↦ inl (new_cap g.cap, rw (full, more) refl, ground arith, ground arith)
    | inr refused ↦ inr (rw (full, refused) refl, ground arith)
  ]
]

-- What a call of `append` leaves: with OI_OK the old entries, the newest of them the text, or the text
-- behind the old entries without their oldest `k`; with an error the history it was.
abbrev pub Kept : History → Bytes → Status × History → Type 0
Kept h text r =
    ((r.0 ≡ ok) × (r.1.entries ≡ h.entries) × (is_newest text h.entries ≡ true))
    ⊎ ((r.0 ≡ ok) × ((k : ℕ) × (r.1.entries ≡ drop k h.entries ++ (text ∷ []))))
    ⊎ (r.0 ≢ ok) × (r.1 ≡ h)

-- The end of `append`, with the room that was made.
abbrev pushed : Bytes → Status × History → Status × History
pushed text room = if is_ok room.0 then (ok, push text room.1) else room

without-zero : (h : History) (k : ℕ) → IsValid h → k ≡ 0 → without k h ≡ h
without-zero h k v z = ap (λ j. without j h) z ∙ ap (λ b. record h { bytes = b }) (sym v.counted)

reset-entries : (h : History) → (reset_navigation h).entries ≡ h.entries
unfolding reset_navigation
reset-entries h = refl

err_nomem-ok : err_nomem ≢ ok
err_nomem-ok h = ground arith

not_ok : (s : Status) → is_ok s ≡ false → s ≢ ok
not_ok s h e = ground arith

abbrev Settled : History → Bytes → Status × History → Type 0
Settled h text r = IsValid r.1 × Kept h text r

pushed_lem :
    (h : History) (text : Bytes) (k : ℕ)
    → IsValid h
    → k ≤ length h.entries
    → length (drop k h.entries) < max_entries
    → total (drop k h.entries) + length text ≤ max_text
    → (room : Status × History) → Reserved (without k h) room
    → Settled h text (pushed text room)
unfolding push reset_navigation
pushed_lem h text k v m few small room (inl (c, e, lt, le)) = rw e (
  push-IsValid (record (without k h) { cap = c }) text few refl small lt le,
  inr (inl (refl, (k, refl))),
)
pushed_lem h text k v m few small room (inr (e, full)) =
    let none_gone : k ≡ 0 = omega (arith, length-drop k h.entries, full, m, v.held, v.few, few) in
    rw (e, without-zero h k v none_gone) (v, inr (inr (err_nomem-ok, refl)))

module _ (grants : ℕ → Bool) (h : History) (text : Bytes) where
  made_room :
      IsValid h
      → length text ≤ max_text
      → Settled h text (pushed text (reserve_entries grants (make_room h (length text))))
  made_room v l =
      let (k, m, q, few, small) = make_room_lem h (length text) v l in
      let kept : length (drop k h.entries) ≤ h.cap =
        omega (arith, length-drop k h.entries, v.held) in
      rw q (
        pushed_lem h text k v m few small (reserve_entries grants (without k h))
          (reserve_entries-Reserved grants (without k h) few kept v.room))

  append_lem : IsValid h → Settled h text (append grants h text)
  unfolding append
  append_lem v = elim (Bool-cases (is_ok (validate_text text false))) [
    | inr bad ↦ rw bad (v, inr (inr (not_ok (validate_text text false) bad, refl)))
    | inl good ↦ elim (Bool-cases (is_newest text h.entries)) [
      | inl same ↦ rw (good, same) (reset_navigation-IsValid h v, inl (refl, reset-entries h, refl))
      | inr other ↦ elim (Bool-cases (grants (length text + 1))) [
        | inr refused ↦ rw (good, other, refused) (v, inr (inr (err_nomem-ok, refl)))
        | inl copy ↦
            let room = reserve_entries grants (make_room h (length text)) in
            let step : append grants h text ≡ pushed text room =
              rw (append, good, other, copy) refl in
            subst (Settled h text) (sym step) (made_room v (validate_text-length text false good))
      ]
    ]
  ]

  -- A call of append in a valid history leaves one, whatever it returns: at most 256 entries of 4
  -- MiB, counted right, inside the allocation, and a walk inside them.
  pub append_history-IsValid : IsValid h → IsValid (append grants h text).1
  append_history-IsValid v = (append_lem v).0

  -- In a valid history an append either finds the text as the newest entry, says OI_OK and keeps
  -- the entries, or says OI_OK and puts the text behind the entries without some of the oldest,
  -- or says an error and changes nothing.
  pub append-Kept : IsValid h → Kept h text (append grants h text)
  append-Kept v = (append_lem v).1
