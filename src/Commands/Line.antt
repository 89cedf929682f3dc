-- ===== src/Commands/Line.antt =====
-- src/cli_commands.c, `oi_cli_command_parse_text`: a line that is put together is taken apart again.
use oi_c.Prelude.{
  ℕ, zero, suc, ◌≤◌, ◌<◌, ◌≡◌, refl, ap, ◌∙◌, subst, Bool, true, false, not, ◌&&◌, [], ◌∷◌, ◌++◌,
  leb, ◌==◌, length, get_or, Bytes, equal, All, some, arith,
}
use oi_c.Commands.{
  Definition, commands, command_at, is_space, has_space, token, behind_token, find_name,
  skip_spaces, drop_spaces, cons_unless, command, parse_text,
}

abbrev pub Spaces : Bytes → Type 0
Spaces = All (λ c. is_space c ≡ true)

-- A name of the table: a slash, no second one, no space, and it is found.
pub record IsName (d : Definition) : Type 0 where
  pub long : 2 ≤ length d.name
  pub slash : (get_or d.name 0 0 == b'/') ≡ true
  pub single : (get_or d.name 1 0 == b'/') ≡ false
  pub solid : has_space d.name ≡ false
  pub found : find_name d.name commands ≡ some d

-- The tests of a name, at once.
abbrev tests : Definition → Bool
tests d =
    (leb 2 (length d.name) && get_or d.name 0 0 == b'/')
    && (not (get_or d.name 1 0 == b'/') && not (has_space d.name))

tests-IsName :
    (x d : Definition)
    → some x ≡ some d
    → tests x ≡ true
    → find_name x.name commands ≡ some x
    → IsName d
tests-IsName x d e t f =
    let same : x ≡ d = cc in
    subst IsName same (record {
      long = ground arith;
      slash = ground arith;
      single = ground arith;
      solid = ground arith;
      found = f;
    })

pub command_at-IsName : (i : ℕ) (d : Definition) → command_at i ≡ some d → IsName d
unfolding command_at commands has_space is_space find_name equal
command_at-IsName zero d h = tests-IsName _ d h refl refl
command_at-IsName (suc zero) d h = tests-IsName _ d h refl refl
command_at-IsName (suc (suc zero)) d h = tests-IsName _ d h refl refl
command_at-IsName (suc (suc (suc zero))) d h = tests-IsName _ d h refl refl
command_at-IsName (suc (suc (suc (suc zero)))) d h = tests-IsName _ d h refl refl
command_at-IsName (suc (suc (suc (suc (suc zero))))) d h = tests-IsName _ d h refl refl
command_at-IsName (suc (suc (suc (suc (suc (suc zero)))))) d h = tests-IsName _ d h refl refl
command_at-IsName (suc (suc (suc (suc (suc (suc (suc zero))))))) d h = tests-IsName _ d h refl refl
command_at-IsName (suc (suc (suc (suc (suc (suc (suc (suc i)))))))) d h = absurd (cc)

get_or-append : (xs ys : Bytes) (i : ℕ) → i < length xs → get_or (xs ++ ys) i 0 ≡ get_or xs i 0
get_or-append [] ys i h = absurd (omega arith)
get_or-append (x ∷ xs) ys zero h = refl
get_or-append (x ∷ xs) ys (suc i) h = get_or-append xs ys i (omega arith)

token-append :
    (n : Bytes) (s : ℕ) (rest : Bytes)
    → has_space n ≡ false
    → is_space s ≡ true
    → (token (n ++ (s ∷ rest)) ≡ n) × (behind_token (n ++ (s ∷ rest)) ≡ s ∷ rest)
unfolding token behind_token has_space
token-append [] s rest h e = (rw e refl, rw e refl)
token-append (c ∷ cs) s rest h e =
    let a : is_space c ≡ false = ground arith in
    let b : has_space cs ≡ false = ground arith in
    let r = token-append cs s rest b e in (rw a (ap (◌∷◌ c) r.0), rw a r.1)

skip_spaces-append : (ss rest : Bytes) → Spaces ss → skip_spaces (ss ++ rest) ≡ skip_spaces rest
unfolding skip_spaces
skip_spaces-append [] rest h = refl
skip_spaces-append (c ∷ cs) rest h = rw h.0 (skip_spaces-append cs rest h.1)

drop_spaces-Spaces : (ts : Bytes) → Spaces ts → drop_spaces ts ≡ []
unfolding drop_spaces
drop_spaces-Spaces [] h = refl
drop_spaces-Spaces (c ∷ cs) h = rw (drop_spaces-Spaces cs h.1, h.0) refl

drop_spaces-append : (xs ts : Bytes) → Spaces ts → drop_spaces (xs ++ ts) ≡ drop_spaces xs
unfolding drop_spaces
drop_spaces-append [] ts h = drop_spaces-Spaces ts h
drop_spaces-append (c ∷ cs) ts h = ap (cons_unless (is_space c) c) (drop_spaces-append cs ts h)

skip_spaces-Spaces : (ts : Bytes) → Spaces ts → skip_spaces ts ≡ []
unfolding skip_spaces
skip_spaces-Spaces [] h = refl
skip_spaces-Spaces (c ∷ cs) h = rw h.0 (skip_spaces-Spaces cs h.1)

-- Neither the first nor the last byte is a space.
unfoldable pub IsTrimmed : Bytes → Type 0
IsTrimmed [] = Unit
IsTrimmed (c ∷ cs) = (is_space c ≡ false) × (drop_spaces (c ∷ cs) ≡ c ∷ cs)

trim_lem :
    (args ts : Bytes) → IsTrimmed args → Spaces ts → drop_spaces (skip_spaces (args ++ ts)) ≡ args
unfolding IsTrimmed skip_spaces
trim_lem [] ts h k = ap drop_spaces (skip_spaces-Spaces ts k) ∙ drop_spaces-Spaces [] tt
trim_lem (c ∷ cs) ts h k = rw h.0 (drop_spaces-append (c ∷ cs) ts k ∙ h.1)

-- A line of a name from the command table, one or more spaces, arguments that neither start nor
-- end with a space, and spaces is taken apart into that command and those arguments.
pub parse_text-command :
    (i : ℕ) (d : Definition) (s : ℕ) (ss args ts : Bytes)
    → command_at i ≡ some d
    → Spaces (s ∷ ss)
    → IsTrimmed args
    → Spaces ts
    → parse_text (d.name ++ (s ∷ (ss ++ (args ++ ts)))) ≡ command d args
unfolding parse_text skip_spaces
parse_text-command i d s ss args ts e h t k =
    let n = command_at-IsName i d e in
    let rest = s ∷ (ss ++ (args ++ ts)) in
    let r = token-append d.name s (ss ++ (args ++ ts)) n.solid h.0 in
    let a : (get_or (d.name ++ rest) 0 0 == b'/') ≡ true =
      rw (get_or-append d.name rest 0 (omega (arith, n.long))) n.slash in
    let b : (get_or (d.name ++ rest) 1 0 == b'/') ≡ false =
      rw (get_or-append d.name rest 1 (omega (arith, n.long))) n.single in
    let trimmed : drop_spaces (skip_spaces (s ∷ (ss ++ (args ++ ts)))) ≡ args =
      rw (h.0, skip_spaces-append ss (args ++ ts) h.1) (trim_lem args ts t k) in
    simp (a, b, r.0, r.1, n.found) (ap (command d) trimmed)
