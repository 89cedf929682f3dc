-- ===== src/ToolRegistry/Laws.antt =====
-- What is found after an addition.
use oi_c.Prelude.{
  ℕ, ◌+◌, ◌≡◌, ◌⊎◌, inl, inr, refl, Bool, true, false, not, ◌||◌, List, [], ◌∷◌, ◌++◌,
  if◌then◌else◌, length, Bytes, equal, equal→eq, ◌∙◌, Option, none, some, arith, Bool-cases, sym,
  ap, subst,
}
use oi_c.Status.{Status, ok, err_exists, err_nomem}
use oi_c.ToolRegistry.{Entry, Registry, find_entry, is_found, reserve, put, placed, add}

module _ {ℓ} {T : Type ℓ} where
  -- Looking behind the last entry: only there is anything new.
  find_entry-append :
      (name : Bytes) (es : List (Entry T)) (e : Entry T)
      → find_entry name (es ++ (e ∷ [])) ≡ (
          if is_found (find_entry name es)
          then find_entry name es
          else if equal e.name name
          then some e
          else none)
  unfolding find_entry
  find_entry-append name [] e = refl
  find_entry-append name (d ∷ es) e = elim (Bool-cases (equal d.name name)) [
    | inl here ↦ rw here refl
    | inr on ↦ rw on (find_entry-append name es e)
  ]

  -- What `add` says and leaves.
  abbrev pub Added : (Registry T) → Entry T → Status × Registry T → Type ℓ
  Added r e s =
      (s.0 ≡ err_exists) × (is_found (find_entry e.name r.entries) ≡ true) × (s.1 ≡ r)
      ⊎ (s.0 ≡ err_nomem) × (s.1.entries ≡ r.entries)
      ⊎ (s.0 ≡ ok)
        × (is_found (find_entry e.name r.entries) ≡ false)
        × (s.1.entries ≡ r.entries ++ (e ∷ []))

  reserve-entries :
      (grants : ℕ → Bool) (r room : Registry T)
      → reserve grants r ≡ some room
      → room.entries ≡ r.entries
  unfolding reserve
  reserve-entries grants r room h = ground arith

  placed-Added :
      (grants : ℕ → Bool) (r : Registry T) (e : Entry T) (o : Option (Registry T))
      → is_found (find_entry e.name r.entries) ≡ false
      → reserve grants r ≡ o
      → Added r e (placed grants e r o)
  unfolding put
  placed-Added grants r e none f h = inr (inl (refl, refl))
  placed-Added grants r e (some room) f h =
      let same : room.entries ≡ r.entries = reserve-entries grants r room h in
      elim (Bool-cases
        (not (grants (length e.name + 1)) || not (grants (length e.json_schema + 1)))) [
          | inl refused ↦ rw refused (inr (inl (refl, same)))
          | inr copied ↦ rw copied (inr (inr (refl, f, ap (λ es. es ++ (e ∷ [])) same)))
        ]

  -- An addition of a name that is there says OI_ERR_EXISTS and changes nothing; any other says
  -- OI_OK and puts the entry behind the others, or says OI_ERR_NOMEM and keeps the entries.
  pub add-Added : (grants : ℕ → Bool) (r : Registry T) (e : Entry T) → Added r e (add grants r e)
  unfolding add
  add-Added grants r e = elim (Bool-cases (is_found (find_entry e.name r.entries))) [
    | inl there ↦
        let step : add grants r e ≡ (err_exists, r) = rw (add, there) refl in
        subst (Added r e) (sym step) (inl (refl, there, refl))
    | inr new ↦
        let step : add grants r e ≡ placed grants e r (reserve grants r) = rw (add, new) refl in
        subst (Added r e) (sym step) (placed-Added grants r e (reserve grants r) new refl)
  ]

  is_found-none : (o : Option (Entry T)) → is_found o ≡ false → o ≡ none
  is_found-none none h = refl
  is_found-none (some e) h = absurd (ground arith)

  other_name : (o : Option (Entry T)) → (if is_found o then o else none) ≡ o
  other_name none = refl
  other_name (some e) = refl

  -- After an addition to the registry that says OI_OK, the name of the new entry finds it, and
  -- every other name finds what it found before.
  pub find_entry-add :
      (grants : ℕ → Bool) (r : Registry T) (e : Entry T) (name : Bytes)
      → (add grants r e).0 ≡ ok
      → find_entry name (add grants r e).1.entries
        ≡ (if equal e.name name then some e else find_entry name r.entries)
  find_entry-add grants r e name h = elim (add-Added grants r e) [
    | inl (x, _, _) ↦ absurd (ground arith)
    | inr (inl (x, _)) ↦ absurd (ground arith)
    | inr (inr (_, f, q)) ↦ elim (Bool-cases (equal e.name name)) [
      | inl same ↦ rw same (
          let named : e.name ≡ name = equal→eq e.name name same in
          ap (find_entry name) q
          ∙ find_entry-append name r.entries e
          ∙ rw (ap (λ n. is_found (find_entry n r.entries)) (sym named) ∙ f, same) refl)
      | inr differ ↦ rw differ (
          ap (find_entry name) q
          ∙ find_entry-append name r.entries e
          ∙ rw differ (other_name (find_entry name r.entries)))
    ]
  ]
