-- ===== src/Editor/Lines.antt =====
-- Home and End: the byte loops stop where the zipper stops, at a newline character or at an end.
use oi_c.Prelude.{
  ℕ, zero, suc, ◌+◌, ◌-◌, ◌≡◌, inl, inr, refl, List, [], ◌∷◌, ◌++◌, length, length-append, Bytes,
  All, arith, sym, ap, ◌∙◌, ◌<◌, append_assoc, true, false, ◌==◌, if◌then◌else◌, drop-append,
  get_or, get_or-drop, Bool-cases, le→ltb,
}
use oi_c.Utf8.Encode.{IsScalar, emit_utf8, emit_all}
use oi_c.Editor.{Editor, line_start, line_end, move_line_start, move_line_end}
use oi_c.Editor.Zipper.{Zipper, emit_before, Shows, cursor-le}

-- Back to behind the last newline, and on to before the next one.
unfoldable pub start_of : List ℕ → List ℕ → Zipper
start_of [] after = record { before = []; after = after }
start_of (c ∷ cs) after =
    if c == b'\n' then record { before = c ∷ cs; after = after } else start_of cs (c ∷ after)

unfoldable pub end_of : List ℕ → List ℕ → Zipper
end_of before [] = record { before = before; after = [] }
end_of before (c ∷ cs) =
    if c == b'\n' then record { before = before; after = c ∷ cs } else end_of (c ∷ before) cs

get_or-append : (p q : Bytes) (i : ℕ) → get_or (p ++ q) (length p + i) 0 ≡ get_or q i 0
get_or-append p q i =
    sym (get_or-drop (length p) i (p ++ q) 0)
    ∙ ap (λ t. get_or t i 0) (drop-append (length p) p q refl)

-- No byte of a character but the newline is a newline.
emit_utf8_no_newline :
    (c : ℕ) (q : Bytes) (i : ℕ)
    → (c == b'\n') ≡ false
    → i < length (emit_utf8 c)
    → (get_or (emit_utf8 c ++ q) i 0 == b'\n') ≡ false
unfolding emit_utf8
emit_utf8_no_newline c q zero h l = ground arith
emit_utf8_no_newline c q (suc zero) h l = ground arith
emit_utf8_no_newline c q (suc (suc zero)) h l = ground arith
emit_utf8_no_newline c q (suc (suc (suc i))) h l = ground arith

line_start_stop :
    (text : Bytes) (c : ℕ) → (get_or text c 0 == b'\n') ≡ true → line_start text (suc c) ≡ suc c
unfolding line_start
line_start_stop text c h = rw h

line_start_step :
    (text : Bytes) (c : ℕ)
    → (get_or text c 0 == b'\n') ≡ false
    → line_start text (suc c) ≡ line_start text c
unfolding line_start
line_start_step text c h = rw h

line_start_skip :
    (text : Bytes) (o k m : ℕ)
    → m ≡ o + k
    → ((i : ℕ) → i < k → (get_or text (o + i) 0 == b'\n') ≡ false)
    → line_start text m ≡ line_start text o
line_start_skip text o zero m e h = ap (line_start text) (omega arith)
line_start_skip text o (suc k) zero e h = absurd (omega arith)
line_start_skip text o (suc k) (suc m) e h =
    let e' : m ≡ o + k = omega arith in
    line_start_step text m (ap (λ j. get_or text j 0 == b'\n') e' ∙ h k (omega arith))
    ∙ line_start_skip text o k m e' (λ i l. h i (omega arith))

-- What the byte loop meets on a character that stands behind `p`.
module _ (p : Bytes) (c : ℕ) (q : Bytes) where
  char_skipped :
      (c == b'\n') ≡ false
      → (i : ℕ) → i < length (emit_utf8 c)
      → (get_or (p ++ (emit_utf8 c ++ q)) (length p + i) 0 == b'\n') ≡ false
  char_skipped n i l =
      ap (λ b. b == b'\n') (get_or-append p (emit_utf8 c ++ q) i) ∙ emit_utf8_no_newline c q i n l

  char_newline :
      (c == b'\n') ≡ true → (get_or (p ++ (emit_utf8 c ++ q)) (length p) 0 == b'\n') ≡ true
  unfolding emit_utf8
  char_newline n =
      ap (λ j. get_or (p ++ (emit_utf8 c ++ q)) j 0 == b'\n') (omega arith)
      ∙ ap (λ b. b == b'\n') (get_or-append p (emit_utf8 c ++ q) 0)
      ∙ ground arith

  newline_length : (c == b'\n') ≡ true → length (emit_utf8 c) ≡ 1
  unfolding emit_utf8
  newline_length n = ground arith

line_start-start_of :
    (before after : List ℕ) (rest : Bytes)
    → line_start (emit_before before ++ rest) (length (emit_before before))
      ≡ length (emit_before (start_of before after).before)
unfolding start_of emit_before
line_start-start_of [] after rest = unfold line_start in refl
line_start-start_of (c ∷ cs) after rest =
    let p = emit_before cs in
    let text = append_assoc p (emit_utf8 c) rest in
    let len = length-append p (emit_utf8 c) in
    ap (λ t. line_start t (length (p ++ emit_utf8 c))) text ∙ elim (Bool-cases (c == b'\n')) [
      | inl n ↦
          let one : length (p ++ emit_utf8 c) ≡ suc (length p) =
            omega (arith, len, newline_length p c rest n) in
          ap (line_start (p ++ (emit_utf8 c ++ rest))) one
          ∙ line_start_stop _ (length p) (char_newline p c rest n)
          ∙ sym one
          ∙ rw n refl
      | inr n ↦
          line_start_skip _ (length p) (length (emit_utf8 c)) _ len (char_skipped p c rest n)
          ∙ line_start-start_of cs (c ∷ after) (emit_utf8 c ++ rest)
          ∙ rw n refl
    ]

line_end_stop :
    (text : Bytes) (left c : ℕ) → (get_or text c 0 == b'\n') ≡ true → line_end text left c ≡ c
unfolding line_end
line_end_stop text zero c h = refl
line_end_stop text (suc left) c h = rw h

line_end_step :
    (text : Bytes) (left c : ℕ)
    → (get_or text c 0 == b'\n') ≡ false
    → line_end text (suc left) c ≡ line_end text left (c + 1)
unfolding line_end
line_end_step text left c h = rw h

line_end_skip :
    (text : Bytes) (k o left left' o' : ℕ)
    → left ≡ k + left'
    → o' ≡ o + k
    → ((i : ℕ) → i < k → (get_or text (o + i) 0 == b'\n') ≡ false)
    → line_end text left o ≡ line_end text left' o'
line_end_skip text zero o left left' o' e f h =
    let e' : left ≡ left' = omega arith in
    let f' : o ≡ o' = omega arith in ap (λ l. line_end text l o) e' ∙ ap (line_end text left') f'
line_end_skip text (suc k) o zero left' o' e f h = absurd (omega arith)
line_end_skip text (suc k) o (suc left) left' o' e f h =
    let here : (get_or text o 0 == b'\n') ≡ false =
      ap (λ j. get_or text j 0 == b'\n') (omega arith) ∙ h 0 (omega arith) in
    let there = λ (i : ℕ) (l : i < k).
      ap (λ j. get_or text j 0 == b'\n') (let q : o + 1 + i ≡ o + suc i = omega arith in q)
      ∙ h (suc i) (omega arith) in
    line_end_step text left o here
    ∙ line_end_skip text k (o + 1) left left' o' (omega arith) (omega arith) there

joined :
    (before : List ℕ) (c : ℕ) (q : Bytes)
    → emit_before before ++ (emit_utf8 c ++ q) ≡ emit_before (c ∷ before) ++ q
unfolding emit_before
joined before c q = sym (append_assoc (emit_before before) (emit_utf8 c) q)

line_end-end_of :
    (before after : List ℕ)
    → line_end
        (emit_before before ++ emit_all after)
        (length (emit_all after))
        (length (emit_before before))
      ≡ length (emit_before (end_of before after).before)
unfolding end_of emit_all
line_end-end_of before [] = unfold line_end in refl
line_end-end_of before (c ∷ cs) =
    let p = emit_before before in
    elim (Bool-cases (c == b'\n')) [
      | inl n ↦ line_end_stop _ _ (length p) (char_newline p c (emit_all cs) n) ∙ rw n refl
      | inr n ↦
          line_end_skip _ (length (emit_utf8 c)) (length p) _ (length (emit_all cs))
            (length (emit_before (c ∷ before))) (length-append (emit_utf8 c) (emit_all cs))
            (unfold emit_before in length-append p (emit_utf8 c)) (char_skipped p c (emit_all cs) n)
          ∙ ap (λ t. line_end t (length (emit_all cs)) (length (emit_before (c ∷ before))))
              (joined before c (emit_all cs))
          ∙ line_end-end_of (c ∷ before) cs
          ∙ rw n refl
    ]

move_over :
    (cs : List ℕ) (c : ℕ) (after : List ℕ)
    → emit_before (c ∷ cs) ++ emit_all after ≡ emit_before cs ++ emit_all (c ∷ after)
unfolding emit_before emit_all
move_over cs c after = append_assoc (emit_before cs) (emit_utf8 c) (emit_all after)

-- Both zippers hold the same characters as the one they start from.
abbrev SameText : List ℕ → List ℕ → Zipper → Type 0
SameText before after z =
    (emit_before before ++ emit_all after ≡ emit_before z.before ++ emit_all z.after)
    × (All IsScalar before → All IsScalar after → All IsScalar z.before × All IsScalar z.after)

start_of-SameText : (before after : List ℕ) → SameText before after (start_of before after)
unfolding start_of
start_of-SameText [] after = (refl, λ b a. (b, a))
start_of-SameText (c ∷ cs) after = elim (Bool-cases (c == b'\n')) [
  | inl n ↦ rw n (refl, λ b a. (b, a))
  | inr n ↦
      let (t, s) = start_of-SameText cs (c ∷ after) in
      rw n (move_over cs c after ∙ t, λ b a. s b.1 (b.0, a))
]

end_of-SameText : (before after : List ℕ) → SameText before after (end_of before after)
unfolding end_of
end_of-SameText before [] = (refl, λ b a. (b, a))
end_of-SameText before (c ∷ cs) = elim (Bool-cases (c == b'\n')) [
  | inl n ↦ rw n (refl, λ b a. (b, a))
  | inr n ↦
      let (t, s) = end_of-SameText (c ∷ before) cs in
      rw n (sym (move_over before c cs) ∙ t, λ b a. s (a.0, b) a.1)
]

-- From an editor that shows a sequence of characters with a cursor, moving to the start of the
-- line moves the cursor back to just behind the last newline before it, or to the start.
pub move_line_start_refines :
    (e : Editor) (z : Zipper) → Shows e z → Shows (move_line_start e) (start_of z.before z.after)
unfolding move_line_start
move_line_start_refines e z s =
    let (t, c) = start_of-SameText z.before z.after in
    let (b, a) = c s.scalars_before s.scalars_after in
    rw (le→ltb _ _ (cursor-le s)) (record {
      scalars_before = b;
      scalars_after = a;
      text_is = s.text_is ∙ t;
      cursor_is =
          ap (line_start e.text) s.cursor_is
          ∙ ap (λ u. line_start u (length (emit_before z.before))) s.text_is
          ∙ line_start-start_of z.before z.after (emit_all z.after);
    })

-- From an editor that shows a sequence of characters with a cursor, moving to the end of the line
-- moves the cursor on to the next newline after it, or to the end.
pub move_line_end_refines :
    (e : Editor) (z : Zipper) → Shows e z → Shows (move_line_end e) (end_of z.before z.after)
unfolding move_line_end
move_line_end_refines e z s =
    let (t, c) = end_of-SameText z.before z.after in
    let (b, a) = c s.scalars_before s.scalars_after in
    let left : length e.text - e.cursor ≡ length (emit_all z.after) = omega (
      arith,
      s.cursor_is,
      ap length s.text_is,
      length-append (emit_before z.before) (emit_all z.after),
    ) in
    rw (le→ltb _ _ (cursor-le s)) (record {
      scalars_before = b;
      scalars_after = a;
      text_is = s.text_is ∙ t;
      cursor_is =
          ap (λ l. line_end e.text l e.cursor) left
          ∙ ap (line_end e.text _) s.cursor_is
          ∙ ap (λ u. line_end u (length (emit_all z.after)) (length (emit_before z.before)))
              s.text_is
          ∙ line_end-end_of z.before z.after;
    })
