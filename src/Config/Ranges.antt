-- ===== src/Config/Ranges.antt =====
-- src/config.c: the port and the deadline stay in their ranges.
use oi_c.Prelude.{
  ℕ, ◌≤◌, ◌≡◌, inl, inr, refl, Bool, true, false, not, ◌||◌, List, [], ◌∷◌, ltb, leb, ◌==◌,
  if◌then◌else◌, length, Bytes, equal, codes, Bool-cases, Option, none, some, arith,
}
use oi_c.Config.{
  Config, ℤ, pos, negsuc, Opened, missing, refused, opened, with_port, with_timeout, with_tls,
  parse_int, parse_bool, set, trim, assign, parse_trimmed, parse_line, load_lines, load_file,
  load_env, init_defaults, c_string, split_equals, fgets_lines, int_max, out_of_int, out_of_long,
  checked, strtol,
}
use oi_c.Status.{Status, Result, val, err, ok, is_ok}

-- A TCP port, and a positive int.
pub record InRange (c : Config) : Type 0 where
  pub port_low : 1 ≤ c.port
  pub port_high : c.port ≤ 65535
  pub timeout_low : 1 ≤ c.timeout_ms
  pub timeout_high : c.timeout_ms ≤ int_max

-- The number of a result, if there is one, is an int.
abbrev IsInt : Result ℤ → Type 0
IsInt (val z) = out_of_int z ≡ false
IsInt (err s) = Unit

checked-IsInt : (o : Option (ℤ × Bytes)) → IsInt (checked o)
checked-IsInt none = tt
checked-IsInt (some (v, end)) =
    elim (Bool-cases ((not (length end == 0) || out_of_long v) || out_of_int v)) [
      | inl a ↦ simp a tt
      | inr a ↦ let b : out_of_int v ≡ false = ground arith in simp a b
    ]

parse_int-IsInt : (v : Bytes) → IsInt (parse_int v)
unfolding parse_int
parse_int-IsInt v = elim (Bool-cases (length v == 0)) [
  | inl a ↦ simp a tt
  | inr a ↦ simp a (checked-IsInt (strtol v))
]

with_numbers :
    (c d : Config) → d.port ≡ c.port → d.timeout_ms ≡ c.timeout_ms → InRange c → InRange d
with_numbers c d a b v = record {
  port_low = omega (arith, a, v.port_low);
  port_high = omega (arith, a, v.port_high);
  timeout_low = omega (arith, b, v.timeout_low);
  timeout_high = omega (arith, b, v.timeout_high);
}

with_port-InRange : (c : Config) (r : Result ℤ) → InRange c → InRange (with_port c r).1
with_port-InRange c (val (pos n)) v = elim (Bool-cases (ltb n 1 || ltb 65535 n)) [
  | inl a ↦ simp a v
  | inr a ↦ simp a (record {
    port_low = ground arith;
    port_high = ground arith;
    timeout_low = v.timeout_low;
    timeout_high = v.timeout_high;
  })
]
with_port-InRange c (val (negsuc n)) v = v
with_port-InRange c (err s) v = v

with_timeout-InRange :
    (c : Config) (r : Result ℤ) → IsInt r → InRange c → InRange (with_timeout c r).1
with_timeout-InRange c (val (pos n)) i v = elim (Bool-cases (leb n 0)) [
  | inl a ↦ simp a v
  | inr a ↦ simp a (record {
    port_low = v.port_low;
    port_high = v.port_high;
    timeout_low = ground arith;
    timeout_high = ground arith;
  })
]
with_timeout-InRange c (val (negsuc n)) i v = v
with_timeout-InRange c (err s) i v = v

with_tls-InRange : (c : Config) (r : Result Bool) → InRange c → InRange (with_tls c r).1
with_tls-InRange c (val b) v = with_numbers c _ refl refl v
with_tls-InRange c (err s) v = v

if-InRange :
    (b : Bool) (x y : Status × Config) → InRange x.1 → InRange y.1 → InRange (if b then x else y).1
if-InRange true x y v w = v
if-InRange false x y v w = w

module _ (grants : ℕ → Bool) where
  pub set-InRange :
      (c : Config) (key value : Bytes) → InRange c → InRange (set grants c key value).1
  unfolding set
  set-InRange c key value v =
      let string = λ (d : Config) (a : d.port ≡ c.port) (b : d.timeout_ms ≡ c.timeout_ms).
        with_numbers c d a b v in
      if-InRange (equal key (codes "api_key")) _ _ (string _ refl refl) (
        if-InRange (equal key (codes "host")) _ _ (string _ refl refl) (
          if-InRange (equal key (codes "port")) _ _ (with_port-InRange c (parse_int value) v) (
            if-InRange (equal key (codes "use_tls")) _ _ (with_tls-InRange c (parse_bool value) v) (
              if-InRange (equal key (codes "ca_file")) _ _ (string _ refl refl) (
                if-InRange (equal key (codes "path")) _ _ (string _ refl refl) (
                  if-InRange (equal key (codes "model")) _ _ (string _ refl refl) (
                    if-InRange (equal key (codes "timeout_ms")) _ _
                      (with_timeout-InRange c (parse_int value) (parse_int-IsInt value) v) v)))))))

  assign-InRange :
      (c : Config) (o : Option (Bytes × Bytes)) → InRange c → InRange (assign grants c o).1
  assign-InRange c none v = v
  assign-InRange c (some (k, w)) v = elim (Bool-cases (length (trim k) == 0)) [
    | inl a ↦ simp a v
    | inr a ↦ elim (Bool-cases (equal (trim k) (codes "api_key"))) [
      | inl b ↦ simp (a, b) v
      | inr b ↦ simp (a, b) (set-InRange c (trim k) (trim w) v)
    ]
  ]

  parse_trimmed-InRange :
      (c : Config) (bs : Bytes) → InRange c → InRange (parse_trimmed grants c bs).1
  parse_trimmed-InRange c [] v = v
  parse_trimmed-InRange c (b ∷ bs) v =
      if-InRange (b == 35) (ok, c) (assign grants c (split_equals (b ∷ bs))) v
        (assign-InRange c (split_equals (b ∷ bs)) v)

  parse_line-InRange : (c : Config) (l : Bytes) → InRange c → InRange (parse_line grants c l).1
  unfolding parse_line
  parse_line-InRange c l v = parse_trimmed-InRange c (trim (c_string l)) v

  load_lines-InRange :
      (r : Status × Config) (ls : List Bytes) → InRange r.1 → InRange (load_lines grants r ls).1
  unfolding load_lines
  load_lines-InRange r [] v = v
  load_lines-InRange r (l ∷ ls) v = elim (Bool-cases (is_ok r.0)) [
    | inl a ↦ simp a (load_lines-InRange (parse_line grants r.1 l) ls (parse_line-InRange r.1 l v))
    | inr a ↦ simp a v
  ]

  load_file-InRange : (c : Config) (f : Opened) → InRange c → InRange (load_file grants c f).1
  unfolding load_file
  load_file-InRange c missing v = v
  load_file-InRange c refused v = v
  load_file-InRange c (opened bytes) v = load_lines-InRange (ok, c) (fgets_lines [] bytes) v

  load_env-InRange : (c : Config) (o : Option Bytes) → InRange c → InRange (load_env grants c o).1
  unfolding load_env
  load_env-InRange c none v = v
  load_env-InRange c (some w) v = elim (Bool-cases (length w == 0)) [
    | inl a ↦ simp a v
    | inr a ↦ simp a (with_numbers c _ refl refl v)
  ]

  init_defaults-InRange : InRange (init_defaults grants).1
  unfolding init_defaults
  init_defaults-InRange =
      let r = (init_defaults grants).1 in
      let a : r.port ≡ 443 = ground arith in
      let b : r.timeout_ms ≡ 60000 = ground arith in
      record {
        port_low = omega (arith, a);
        port_high = omega (arith, a);
        timeout_low = omega (arith, b);
        timeout_high = omega (arith, b);
      }

  -- The defaults, then a configuration file, then the environment, then one more setting, each
  -- whatever it returns, give a port from 1 to 65535 and a deadline from 1 to INT_MAX
  -- milliseconds.
  pub resolved-InRange :
      (f : Opened) (o : Option Bytes) (key value : Bytes)
      → let c = (load_file grants (init_defaults grants).1 f).1 in
        InRange (set grants (load_env grants c o).1 key value).1
  resolved-InRange f o key value =
      let c = (load_file grants (init_defaults grants).1 f).1 in
      let v = load_file-InRange (init_defaults grants).1 f init_defaults-InRange in
      set-InRange (load_env grants c o).1 key value (load_env-InRange c o v)
