-- ===== src/ToolRegistry.antt =====
-- src/tool_registry.c: the tools by their names.
-- `entries` is entries[0 .. count). A tool's `build_argv` with its `user_data` is a value of any type; a
-- string is its bytes, none of them NUL. The allocator gives an answer to each of the three calls of
-- `oi_tool_registry_add`; the C code asks `strdup` for both copies before it looks at either.
pub mod Laws
use oi_c.Prelude.{
  ℕ, zero, suc, ◌+◌, ◌*◌, ◌/◌, Bool, true, false, not, ◌&&◌, ◌||◌, List, [], ◌∷◌, ◌++◌, ltb, leb,
  ◌==◌, if◌then◌else◌, length, Bytes, equal, Option, none, some, size_max,
}
use oi_c.Status.{Status, Result, val, err, ok, err_exists, err_nomem, err_notfound}

pub record Entry {ℓ} (T : Type ℓ) : Type ℓ where
  pub name : Bytes
  pub json_schema : Bytes
  pub tool : T

pub record Registry {ℓ} (T : Type ℓ) : Type ℓ where
  pub entries : List (Entry T)
  pub cap : ℕ

-- `sizeof(struct oi_tool_entry)`: four pointers of 64 bits.
abbrev entry_size : ℕ
entry_size = 32

abbrev pub new_cap : ℕ → ℕ
new_cap cap = if cap == 0 then 8 else cap * 2

module _ {ℓ} {T : Type ℓ} where
  unfoldable pub create : Registry T
  create = record { entries = []; cap = 0 }

  unfoldable pub find_entry : Bytes → List (Entry T) → Option (Entry T)
  find_entry name [] = none
  find_entry name (e ∷ es) =
      let rest = find_entry name es in if equal e.name name then some e else rest

  abbrev pub is_found : Option (Entry T) → Bool
  is_found none = false
  is_found (some e) = true

  -- Room for one entry more: `none` is OI_ERR_NOMEM.
  unfoldable pub reserve : (ℕ → Bool) → Registry T → Option (Registry T)
  reserve grants r =
      if not (length r.entries == r.cap)
      then some r
      else if ltb (size_max / 2) r.cap
      then none
      else if ltb (size_max / entry_size) (new_cap r.cap)
      then none
      else if grants (new_cap r.cap * entry_size)
      then some (record r { cap = new_cap r.cap })
      else none

  -- The two copies, and the entry behind the others.
  unfoldable pub put : (ℕ → Bool) → Entry T → Registry T → Status × Registry T
  put grants e r =
      if not (grants (length e.name + 1)) || not (grants (length e.json_schema + 1))
      then (err_nomem, r)
      else (ok, record r { entries = r.entries ++ (e ∷ []) })

  abbrev pub placed : (ℕ → Bool) → Entry T → Registry T → Option (Registry T) → Status × Registry T
  placed grants e r none = (err_nomem, r)
  placed grants e r (some room) = put grants e room

  unfoldable pub add : (ℕ → Bool) → Registry T → Entry T → Status × Registry T
  add grants r e =
      if is_found (find_entry e.name r.entries)
      then (err_exists, r)
      else placed grants e r (reserve grants r)

  unfoldable pub schema : Registry T → Bytes → Option Bytes
  schema r name = elim (find_entry name r.entries) [ none ↦ none | some e ↦ some e.json_schema ]

  unfoldable pub lookup : Registry T → Bytes → Result T
  lookup r name = elim (find_entry name r.entries) [ none ↦ err err_notfound | some e ↦ val e.tool ]
