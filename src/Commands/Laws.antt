-- ===== src/Commands/Laws.antt =====
-- src/cli_commands.c: which commands a text matches, and what a line with a command's name means.
use oi_c.Prelude.{
  sym, ap, leb, ◌++◌, ◌↔◌, drop, take, get_or, take-append-drop, equal_refl, equal→eq,
  length-append, length, ℕ, zero, suc, ◌+◌, ◌≤◌, ◌<◌, ◌≡◌, inl, inr, refl, ◌∙◌, subst, Bool, true,
  false, not, ◌&&◌, ◌||◌, List, [], ◌∷◌, ◌==◌, if◌then◌else◌, get_elem?, Bytes, All, Bool-cases,
  Option, none, some, arith,
}
use oi_c.Commands.Line.{command_at-IsName}
use oi_c.Commands.{
  Definition, commands, command_count, command_at, is_space, has_space, one_slash, is_prefix,
  matching, filter,
}

-- The index is in the list.
unfoldable pub contains : ℕ → List ℕ → Bool
contains i [] = false
contains i (j ∷ js) = i == j || contains i js

-- The text is a prefix of the name at this index.
unfoldable pub names : Bytes → Option Definition → Bool
names text none = false
names text (some d) = is_prefix text d.name

contains_if :
    (b : Bool) (i j : ℕ) (js : List ℕ)
    → contains j (if b then i ∷ js else js) ≡ (b && j == i || contains j js)
unfolding contains
contains_if true i j js = refl
contains_if false i j js = refl

-- No index below the first one is found.
contains-matching_below :
    (text : Bytes) (ds : List Definition) (i j : ℕ)
    → j < i
    → contains j (matching text i ds) ≡ false
unfolding matching contains
contains-matching_below text [] i j h = refl
contains-matching_below text (d ∷ ds) i j h =
    let e : contains j (matching text (i + 1) ds) ≡ false =
      contains-matching_below text ds (i + 1) j (omega arith) in
    contains_if (is_prefix text d.name) i j (matching text (i + 1) ds) ∙ ground (arith, e)

contains-matching :
    (text : Bytes) (ds : List Definition) (i k : ℕ)
    → contains (i + k) (matching text i ds) ≡ names text (get_elem? ds k)
unfolding matching contains names
contains-matching text [] i k = refl
contains-matching text (d ∷ ds) i zero =
    let e : contains (i + 0) (matching text (i + 1) ds) ≡ false =
      contains-matching_below text ds (i + 1) (i + 0) (omega arith) in
    contains_if (is_prefix text d.name) i (i + 0) (matching text (i + 1) ds) ∙ ground (arith, e)
contains-matching text (d ∷ ds) i (suc k) =
    let s : (i + 1) + k ≡ i + suc k = omega arith in
    let e : contains (i + suc k) (matching text (i + 1) ds) ≡ names text (get_elem? ds k) =
      subst (λ x. contains x (matching text (i + 1) ds) ≡ names text (get_elem? ds k)) s
        (contains-matching text ds (i + 1) k) in
    contains_if (is_prefix text d.name) i (i + suc k) (matching text (i + 1) ds) ∙ ground (arith, e)

-- The filter gives an index exactly if the text has one slash at its start, no space, and is a
-- prefix of the name at that index of the command table.
contains-filter_tests :
    (text : Bytes) (i : ℕ)
    → contains i (filter text)
      ≡ ((one_slash text && not (has_space text)) && names text (command_at i))
unfolding filter command_at contains
contains-filter_tests text i =
    let e : contains i (matching text 0 commands) ≡ names text (get_elem? commands i) =
      subst (λ x. contains x (matching text 0 commands) ≡ names text (get_elem? commands i))
        (omega arith) (contains-matching text commands 0 i) in
    elim (Bool-cases (one_slash text)) [
      | inr a ↦ simp a refl
      | inl a ↦ elim (Bool-cases (has_space text)) [
        | inl b ↦ simp (a, b) refl
        | inr b ↦ simp (a, b) e
      ]
    ]

-- The text is not empty, and the name of the command at the index goes on from it.
abbrev pub Completes : Bytes → ℕ → Type 0
Completes text i =
    (0 < length text)
    × (d : Definition) × (command_at i ≡ some d)
    × (rest : Bytes) × (d.name ≡ text ++ rest)

one_slash-long : (text : Bytes) → one_slash text ≡ true → 0 < length text
one_slash-long [] h = absurd (cc)
one_slash-long (c ∷ cs) h = omega arith

has_space-prefix : (text rest : Bytes) → has_space (text ++ rest) ≡ false → has_space text ≡ false
unfolding has_space
has_space-prefix [] rest h = refl
has_space-prefix (c ∷ cs) rest h =
    let a : is_space c ≡ false = ground arith in
    let b : has_space (cs ++ rest) ≡ false = ground arith in rw (a, has_space-prefix cs rest b) refl

one_slash-prefix :
    (text rest : Bytes)
    → 0 < length text
    → (get_or (text ++ rest) 0 0 == b'/') ≡ true
    → (get_or (text ++ rest) 1 0 == b'/') ≡ false
    → one_slash text ≡ true
one_slash-prefix [] rest n a b = absurd (omega arith)
one_slash-prefix (c ∷ []) rest n a b = a
one_slash-prefix (c ∷ (d ∷ ds)) rest n a b = rw (a, b) refl

take-prefix : (text rest : Bytes) → take (length text) (text ++ rest) ≡ text
take-prefix [] rest = refl
take-prefix (c ∷ cs) rest = ap (◌∷◌ c) (take-prefix cs rest)

is_prefix-append : (text rest : Bytes) → is_prefix text (text ++ rest) ≡ true
is_prefix-append text rest =
    let l : leb (length text) (length (text ++ rest)) ≡ true =
      ground (arith, length-append text rest) in
    rw (l, take-prefix text rest) (equal_refl text)

names-Completes :
    (text : Bytes) (i : ℕ) (o : Option Definition)
    → command_at i ≡ o
    → 0 < length text
    → names text o ≡ true
    → Completes text i
unfolding names
names-Completes text i none e n h = absurd (cc)
names-Completes text i (some d) e n h =
    let p : take (length text) d.name ≡ text = equal→eq _ _ (ground arith) in
    (
      n,
      d,
      e,
      drop (length text) d.name,
      sym (take-append-drop (length text) d.name) ∙ ap (λ x. x ++ drop (length text) d.name) p,
    )

filter_finds : (text : Bytes) (i : ℕ) → Completes text i → contains i (filter text) ≡ true
unfolding names
filter_finds text i (n, d, e, rest, g) =
    let k = command_at-IsName i d e in
    let a : one_slash text ≡ true =
      one_slash-prefix text rest n (subst (λ x. (get_or x 0 0 == b'/') ≡ true) g k.slash)
        (subst (λ x. (get_or x 1 0 == b'/') ≡ false) g k.single) in
    let b : has_space text ≡ false =
      has_space-prefix text rest (subst (λ x. has_space x ≡ false) g k.solid) in
    let c : is_prefix text d.name ≡ true =
      subst (λ x. is_prefix text x ≡ true) (sym g) (is_prefix-append text rest) in
    contains-filter_tests text i ∙ rw (a, b, e, c) refl

-- The filter gives an index exactly if the text is not empty and the name at that index of the
-- command table is the text followed by some rest.
pub contains-filter : (text : Bytes) (i : ℕ) → (contains i (filter text) ≡ true) ↔ Completes text i
contains-filter text i = (
  λ h.
      let t : ((one_slash text && not (has_space text)) && names text (command_at i)) ≡ true =
        sym (contains-filter_tests text i) ∙ h in
      names-Completes text i (command_at i) refl (one_slash-long text (ground arith))
        (ground arith),
  λ c. filter_finds text i c,
)

-- Every match is an index of the table.
All-matching :
    (text : Bytes) (ds : List Definition) (i n : ℕ)
    → i + length ds ≤ n
    → All (λ j. j < n) (matching text i ds)
unfolding matching
All-matching text [] i n h = tt
All-matching text (d ∷ ds) i n h =
    let rest = All-matching text ds (i + 1) n (omega arith) in
    elim (Bool-cases (is_prefix text d.name)) [
      | inl e ↦ simp e (omega arith, rest)
      | inr e ↦ simp e rest
    ]

pub All-filter : (text : Bytes) → All (λ j. j < command_count) (filter text)
unfolding filter command_count
All-filter text = elim (Bool-cases (not (one_slash text) || has_space text)) [
  | inl e ↦ simp e tt
  | inr e ↦ simp e (All-matching text commands 0 (length commands) (omega arith))
]
