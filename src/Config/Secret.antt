-- ===== src/Config/Secret.antt =====
-- src/config.c: the secret key is set by no file.
use oi_c.Prelude.{
  ℕ, ◌≡◌, inl, inr, refl, ◌∙◌, Bool, false, List, [], ◌∷◌, ◌==◌, length, Bytes, equal, codes,
  Bool-cases, Option, none, some, arith,
}
use oi_c.Config.{
  Config, pos, negsuc, Opened, missing, refused, opened, with_port, with_timeout, with_tls,
  parse_int, parse_bool, set, trim, assign, parse_trimmed, parse_line, load_lines, load_file,
  c_string, split_equals, fgets_lines,
}
use oi_c.Status.{Status, Result, val, err, ok, is_ok}

with_port-api_key : (c : Config) (r : Result _) → (with_port c r).1.api_key ≡ c.api_key
with_port-api_key c (val (pos n)) = ground arith
with_port-api_key c (val (negsuc n)) = refl
with_port-api_key c (err s) = refl

with_timeout-api_key : (c : Config) (r : Result _) → (with_timeout c r).1.api_key ≡ c.api_key
with_timeout-api_key c (val (pos n)) = ground arith
with_timeout-api_key c (val (negsuc n)) = refl
with_timeout-api_key c (err s) = refl

with_tls-api_key : (c : Config) (r : Result Bool) → (with_tls c r).1.api_key ≡ c.api_key
with_tls-api_key c (val b) = refl
with_tls-api_key c (err s) = refl

module _ (grants : ℕ → Bool) where
  set-api_key :
      (c : Config) (key value : Bytes)
      → equal key (codes "api_key") ≡ false
      → (set grants c key value).1.api_key ≡ c.api_key
  unfolding set
  set-api_key c key value h = ground (
    arith,
    with_port-api_key c (parse_int value),
    with_timeout-api_key c (parse_int value),
    with_tls-api_key c (parse_bool value),
  )

  assign-api_key :
      (c : Config) (o : Option (Bytes × Bytes)) → (assign grants c o).1.api_key ≡ c.api_key
  assign-api_key c none = refl
  assign-api_key c (some (k, v)) = elim (Bool-cases (length (trim k) == 0)) [
    | inl a ↦ simp a refl
    | inr a ↦ elim (Bool-cases (equal (trim k) (codes "api_key"))) [
      | inl b ↦ simp (a, b) refl
      | inr b ↦ simp (a, b) (set-api_key c (trim k) (trim v) b)
    ]
  ]

  parse_trimmed-api_key :
      (c : Config) (bs : Bytes) → (parse_trimmed grants c bs).1.api_key ≡ c.api_key
  parse_trimmed-api_key c [] = refl
  parse_trimmed-api_key c (b ∷ bs) = elim (Bool-cases (b == 35)) [
    | inl a ↦ simp a refl
    | inr a ↦ simp a (assign-api_key c (split_equals (b ∷ bs)))
  ]

  parse_line-api_key : (c : Config) (l : Bytes) → (parse_line grants c l).1.api_key ≡ c.api_key
  unfolding parse_line
  parse_line-api_key c l = parse_trimmed-api_key c (trim (c_string l))

  load_lines-api_key :
      (r : Status × Config) (ls : List Bytes) → (load_lines grants r ls).1.api_key ≡ r.1.api_key
  unfolding load_lines
  load_lines-api_key r [] = refl
  load_lines-api_key r (l ∷ ls) = elim (Bool-cases (is_ok r.0)) [
    | inl a ↦ simp a (load_lines-api_key (parse_line grants r.1 l) ls ∙ parse_line-api_key r.1 l)
    | inr a ↦ simp a refl
  ]

  -- Loading a configuration file leaves the API key as it is, whatever the file holds and
  -- whatever the call returns.
  pub load_file-api_key : (c : Config) (f : Opened) → (load_file grants c f).1.api_key ≡ c.api_key
  unfolding load_file
  load_file-api_key c missing = refl
  load_file-api_key c refused = refl
  load_file-api_key c (opened bytes) = load_lines-api_key (ok, c) (fgets_lines [] bytes)
