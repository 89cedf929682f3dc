-- ===== src/Config/Line.antt =====
-- src/config.c, `parse_line`: a line that is put together from a key and a value is read as that setting.
use oi_c.Prelude.{
  ℕ, ◌≡◌, refl, ap, ◌∙◌, Bool, true, false, not, ◌&&◌, ◌||◌, [], ◌∷◌, ◌++◌, ◌==◌, if◌then◌else◌,
  length, Bytes, equal, codes, All, some, arith,
}
use oi_c.Config.{
  Config, set, is_blank, trim, trim_start, trim_end, parse_line, c_string, split_equals,
}

-- A byte that may stand in a key.
abbrev pub is_key : ℕ → Bool
is_key c = not ((c == 0 || c == 61) || is_blank c)

-- Without a NUL, and without blanks and line ends at its two ends.
pub record IsValue (v : Bytes) : Type 0 where
  pub whole : All (λ c. (c == 0) ≡ false) v
  pub start : trim_start v ≡ v
  pub end : trim_end v ≡ v

-- Not empty, made of key bytes, not a comment, and not the secret.
pub record IsKey (c : ℕ) (cs : Bytes) : Type 0 where
  pub plain : All (λ b. is_key b ≡ true) (c ∷ cs)
  pub comment : (c == 35) ≡ false
  pub public : equal (c ∷ cs) (codes "api_key") ≡ false

c_string-append :
    (xs ys : Bytes) → All (λ c. (c == 0) ≡ false) xs → c_string (xs ++ ys) ≡ xs ++ c_string ys
unfolding c_string
c_string-append [] ys h = refl
c_string-append (c ∷ cs) ys h = rw (h.0, c_string-append cs ys h.1) refl

key-NoNul : (xs : Bytes) → All (λ b. is_key b ≡ true) xs → All (λ c. (c == 0) ≡ false) xs
key-NoNul [] h = tt
key-NoNul (c ∷ cs) h = (ground (arith, h.0), key-NoNul cs h.1)

and_false : (b : Bool) → (b && false) ≡ false
and_false true = refl
and_false false = refl

-- Key bytes before a rest that does not vanish stay.
trim_end-key :
    (xs ys : Bytes) → All (λ b. is_key b ≡ true) xs → trim_end (xs ++ ys) ≡ xs ++ trim_end ys
unfolding trim_end
trim_end-key [] ys h = refl
trim_end-key (c ∷ cs) ys h =
    let b : is_blank c ≡ false = ground (arith, h.0) in
    let e : trim_end (cs ++ ys) ≡ cs ++ trim_end ys = trim_end-key cs ys h.1 in
    rw (e, b)
      (ap (λ k. if k then [] else c ∷ (cs ++ trim_end ys))
        (and_false (length (cs ++ trim_end ys) == 0)))

trim_end-newline : (xs : Bytes) → trim_end (xs ++ (10 ∷ [])) ≡ trim_end xs
unfolding trim_end
trim_end-newline [] = refl
trim_end-newline (c ∷ cs) = rw (trim_end-newline cs) refl

split_equals-key :
    (xs rest : Bytes)
    → All (λ b. is_key b ≡ true) xs
    → split_equals (xs ++ (32 ∷ (61 ∷ rest))) ≡ some (xs ++ (32 ∷ []), rest)
unfolding split_equals
split_equals-key [] rest h = refl
split_equals-key (c ∷ cs) rest h =
    let e : (c == 61) ≡ false = ground (arith, h.0) in rw (e, split_equals-key cs rest h.1) refl

trim_end-blank :
    (xs : Bytes) → All (λ b. is_key b ≡ true) xs → trim_end (xs ++ (32 ∷ [])) ≡ xs ++ []
unfolding trim_end
trim_end-blank xs h = trim_end-key xs (32 ∷ []) h

trim_end-front :
    (c : ℕ) (xs : Bytes) → trim_end xs ≡ xs → (length xs == 0) ≡ false → trim_end (c ∷ xs) ≡ c ∷ xs
unfolding trim_end
trim_end-front c xs e l = rw (e, l) refl

-- The blank before a value goes, and the value stays.
trim-value : (v : Bytes) → IsValue v → trim (trim_end (32 ∷ v)) ≡ v
unfolding trim
trim-value [] h = unfold trim_start in unfold trim_end in refl
trim-value (c ∷ cs) h =
    let a : trim_end (32 ∷ (c ∷ cs)) ≡ 32 ∷ (c ∷ cs) =
      trim_end-front 32 (c ∷ cs) h.end (ground arith) in
    let b : trim_start (32 ∷ (c ∷ cs)) ≡ trim_start (c ∷ cs) = unfold trim_start in refl in
    ap (λ x. trim_end (trim_start x)) a ∙ (ap trim_end (b ∙ h.start) ∙ h.end)

trim_start-key : (c : ℕ) (xs : Bytes) → is_key c ≡ true → trim_start (c ∷ xs) ≡ c ∷ xs
unfolding trim_start
trim_start-key c xs h = let e : (c == 32 || c == 9) ≡ false = ground (arith, h) in rw e refl

-- A key, " = ", a value and a newline.
abbrev pub line : Bytes → Bytes → Bytes
line key value = key ++ (32 ∷ (61 ∷ (32 ∷ (value ++ (10 ∷ [])))))

cons_nonempty : (c : ℕ) (xs : Bytes) → (length (c ∷ xs) == 0) ≡ false
cons_nonempty c xs = ground arith

append-nil : (xs : Bytes) → xs ++ [] ≡ xs
append-nil [] = refl
append-nil (x ∷ xs) = ap (◌∷◌ x) (append-nil xs)

trim_end-kept : (c : ℕ) (xs : Bytes) → is_blank c ≡ false → trim_end (c ∷ xs) ≡ c ∷ trim_end xs
unfolding trim_end
trim_end-kept c xs h =
    rw h (ap (λ k. if k then [] else c ∷ trim_end xs) (and_false (length (trim_end xs) == 0)))

trim_end-full :
    (c : ℕ) (xs : Bytes) → (length (trim_end xs) == 0) ≡ false → trim_end (c ∷ xs) ≡ c ∷ trim_end xs
unfolding trim_end
trim_end-full c xs h = rw h refl

-- What is left of the line when its ends are trimmed.
trim-line :
    (c : ℕ) (cs v : Bytes)
    → IsKey c cs
    → IsValue v
    → trim (c_string (line (c ∷ cs) v)) ≡ (c ∷ cs) ++ (32 ∷ (61 ∷ trim_end (32 ∷ v)))
unfolding trim
trim-line c cs v k w =
    let key = c ∷ cs in
    let a : c_string (line key v) ≡ line key v =
      let e : c_string (32 ∷ (61 ∷ (32 ∷ (v ++ (10 ∷ [])))))
          ≡ 32 ∷ (61 ∷ (32 ∷ c_string (v ++ (10 ∷ [])))) =
        unfold c_string in refl in
      let f : c_string (v ++ (10 ∷ [])) ≡ v ++ (10 ∷ []) =
        unfold c_string in c_string-append v (10 ∷ []) w.whole in
      c_string-append key _ (key-NoNul key k.plain)
      ∙ ap (λ x. key ++ x) (e ∙ ap (λ x. 32 ∷ (61 ∷ (32 ∷ x))) f) in
    let b : trim_end (32 ∷ (61 ∷ (32 ∷ (v ++ (10 ∷ []))))) ≡ 32 ∷ (61 ∷ trim_end (32 ∷ v)) =
      let n : trim_end (32 ∷ (v ++ (10 ∷ []))) ≡ trim_end (32 ∷ v) = trim_end-newline (32 ∷ v) in
      let m = trim_end-kept 61 (32 ∷ (v ++ (10 ∷ []))) refl ∙ ap (◌∷◌ 61) n in
      trim_end-full 32 (61 ∷ (32 ∷ (v ++ (10 ∷ [])))) (rw m (cons_nonempty 61 (trim_end (32 ∷ v))))
      ∙ ap (◌∷◌ 32) m in
    ap (λ x. trim_end (trim_start x)) a
    ∙ (ap trim_end (trim_start-key c (cs ++ (32 ∷ (61 ∷ (32 ∷ (v ++ (10 ∷ [])))))) k.plain.0)
        ∙ (trim_end-key key (32 ∷ (61 ∷ (32 ∷ (v ++ (10 ∷ []))))) k.plain ∙ ap (λ x. key ++ x) b))

-- A line of a key, " = ", a value and a newline sets the key to the value, with the status of
-- that call, if the key is not empty, not a comment and not api_key and has no NUL, blank, line
-- end or equals sign, and the value has no NUL and no blank or line end at either end.
pub parse_line-set :
    (grants : ℕ → Bool) (config : Config) (c : ℕ) (cs v : Bytes)
    → IsKey c cs
    → IsValue v
    → parse_line grants config (line (c ∷ cs) v) ≡ set grants config (c ∷ cs) v
unfolding parse_line
parse_line-set grants config c cs v k w =
    let key = c ∷ cs in
    let rest = trim_end (32 ∷ v) in
    let s = split_equals-key key rest k.plain in
    let t : trim (key ++ (32 ∷ [])) ≡ key =
      unfold trim in
      ap trim_end (trim_start-key c (cs ++ (32 ∷ [])) k.plain.0)
      ∙ (trim_end-blank key k.plain ∙ append-nil key) in
    rw (trim-line c cs v k w, k.comment, s, t, cons_nonempty c cs, k.public, trim-value v w) refl
