-- ===== src/Prompt/Recall.antt =====
-- src/cli_prompt_state.c: a committed line is the first that the history shows again.
use oi_c.Prelude.{
  ℕ, suc, ◌+◌, ◌-◌, ◌≤◌, ◌<◌, ◌≡◌, inl, inr, refl, sym, ap, ◌∙◌, subst, Bool, true, false, List, [],
  ◌∷◌, ◌++◌, ◌==◌, length, length-append, drop, get_or, Bytes, equal→eq, Bool-cases, Option, none,
  some, arith,
}
use oi_c.Commands
use oi_c.Commands.{one_slash, has_space}
use oi_c.Editor
use oi_c.Editor.{Editor, max_bytes, has_nul, validate_editor_text}
use oi_c.Editor.Growth.{reserve-ok}
use oi_c.Editor.Insert.{set_cases}
use oi_c.InputHistory as H
use oi_c.InputHistory.{validate_text, reset_navigation, step_back, is_newest}
use oi_c.InputHistory.Evict as E
use oi_c.InputHistory.Bound.{append-Kept}
use oi_c.Prompt.{
  redraw, Prompt, refresh_commands, edited, redraw_ok, shown, apply_history, up, committed, commit,
}
use oi_c.Prompt.Invariant.{IsValid}
use oi_c.Status.{Status, ok, is_ok}
use oi_c.Utf8.{validate, validate_from}

get_or-cons :
    (x : Bytes) (ys : List Bytes)
    → 0 < length ys
    → get_or (x ∷ ys) (length (x ∷ ys) - 1) [] ≡ get_or ys (length ys - 1) []
get_or-cons x [] h = absurd (omega arith)
get_or-cons x (y ∷ zs) h =
    let a : suc (suc (length zs)) - 1 ≡ suc (length zs) = omega arith in
    let b : suc (length zs) - 1 ≡ length zs = omega arith in
    ap (λ k. get_or (x ∷ (y ∷ zs)) k []) a ∙ sym (ap (λ k. get_or (y ∷ zs) k []) b)

get_or-last :
    (xs : List Bytes) (t : Bytes) → get_or (xs ++ (t ∷ [])) (length (xs ++ (t ∷ [])) - 1) [] ≡ t
get_or-last [] t = refl
get_or-last (x ∷ xs) t =
    get_or-cons x (xs ++ (t ∷ [])) (omega (arith, length-append xs (t ∷ []))) ∙ get_or-last xs t

is_newest-last :
    (t : Bytes) (es : List Bytes)
    → is_newest t es ≡ true
    → (get_or es (length es - 1) [] ≡ t) × (0 < length es)
unfolding is_newest
is_newest-last t [] h = cc
is_newest-last t (e ∷ []) h = (equal→eq e t h, omega arith)
is_newest-last t (e ∷ (d ∷ ds)) h =
    let r = is_newest-last t (d ∷ ds) h in (get_or-cons e (d ∷ ds) r.1 ∙ r.0, omega arith)

is_ok-eq : (s : Status) → is_ok s ≡ true → s ≡ ok
is_ok-eq ok h = refl
is_ok-eq _ h = absurd (cc)

append-navigating :
    (grants : ℕ → Bool) (h : H.History) (t : Bytes)
    → (H.append grants h t).0 ≡ ok
    → ((H.append grants h t).1.navigating ≡ false) × (validate_text t false ≡ ok)
unfolding H.append H.push reset_navigation
append-navigating grants h t e = ground (arith, is_ok-eq (validate_text t false))

-- After an append with OI_OK the newest entry is the text.
append-last :
    (grants : ℕ → Bool) (h : H.History) (t : Bytes)
    → E.IsValid h
    → (H.append grants h t).0 ≡ ok
    → let es = (H.append grants h t).1.entries in
      (get_or es (length es - 1) [] ≡ t) × (0 < length es)
append-last grants h t v e = elim (append-Kept grants h t v) [
  | inl a ↦ rw a.1 (is_newest-last t h.entries a.2)
  | inr b ↦ elim b [
    | inl a ↦ rw a.1.1 (
      get_or-last (drop a.1.0 h.entries) t,
      omega (arith, length-append (drop a.1.0 h.entries) (t ∷ [])),
    )
    | inr a ↦ absurd (a.0 e)
  ]
]

-- The first step back from an empty line.
previous-last :
    (grants : ℕ → Bool) (plenty : (n : ℕ) → grants n ≡ true) (h : H.History) (t : Bytes)
    → h.navigating ≡ false
    → 0 < length h.entries
    → get_or h.entries (length h.entries - 1) [] ≡ t
    → let r = H.previous grants h [] in (r.0 ≡ ok) × (r.2 ≡ some t)
unfolding H.previous step_back validate_text has_nul validate validate_from
previous-last grants plenty h t n l g =
    let z : (length h.entries == 0) ≡ false = ground arith in simp (z, n, plenty) (refl, ap some g)

set_ok :
    (grants : ℕ → Bool) (plenty : (n : ℕ) → grants n ≡ true) (e : Editor) (t : Bytes)
    → validate_text t false ≡ ok
    → length t ≤ max_bytes
    → ((Editor.set grants e t).0 ≡ ok) × ((Editor.set grants e t).1.text ≡ t)
unfolding validate_text
set_ok grants plenty e t v l =
    let w : (Editor.set grants e t).0 ≡ ok =
      unfold Editor.set in
      unfold validate_editor_text in ground (arith, reserve-ok grants e (length t) plenty l) in
    elim (set_cases grants e t) [ inl a ↦ (w, a.1) | inr a ↦ absurd (a.0 w) ]

redraw_ok-edited :
    (p : Prompt) (r : Status × Editor) (t : Bytes)
    → r.0 ≡ ok
    → r.1.text ≡ t
    → let q = redraw_ok (edited p r) in (q.0 ≡ ok) × (q.1.editor.text ≡ t) × (q.2 ≡ redraw)
unfolding refresh_commands
redraw_ok-edited p (ok, e) t a b = (refl, b, refl)
redraw_ok-edited p (s, e) t a b = absurd (cc)

shown-text :
    (grants : ℕ → Bool) (p : Prompt) (r : Status × H.History × Option Bytes) (t : Bytes)
    → r.0 ≡ ok
    → r.2 ≡ some t
    → (Editor.set grants p.editor t).0 ≡ ok
    → (Editor.set grants p.editor t).1.text ≡ t
    → let q = shown grants p r in (q.0 ≡ ok) × (q.1.editor.text ≡ t) × (q.2 ≡ redraw)
shown-text grants p (ok, h, some u) t a b c d =
    let e : t ≡ u = cc in
    redraw_ok-edited (record p { history = h }) (Editor.set grants p.editor u) t
      (subst (λ x. (Editor.set grants p.editor x).0 ≡ ok) e c)
      (ap (λ x. (Editor.set grants p.editor x).1.text) (sym e) ∙ d)
shown-text grants p (ok, h, none) t a b c d = absurd (cc)
shown-text grants p (s, h, o) t a b c d = absurd (cc)

-- An up-arrow on an empty line, over a history whose newest entry is the text.
up-shows :
    (grants : ℕ → Bool) (plenty : (n : ℕ) → grants n ≡ true) (p : Prompt) (t : Bytes)
    → p.editor.text ≡ []
    → length p.command_matches ≡ 0
    → p.history.navigating ≡ false
    → (get_or p.history.entries (length p.history.entries - 1) [] ≡ t)
      × (0 < length p.history.entries)
    → validate_text t false ≡ ok
    → length t ≤ max_bytes
    → let r = up grants p in (r.0 ≡ ok) × (r.1.editor.text ≡ t) × (r.2 ≡ redraw)
unfolding up apply_history
up-shows grants plenty p t e m n g v l =
    let z : (length p.command_matches == 0) ≡ true = ground arith in
    let w = previous-last grants plenty p.history t n g.1 g.0 in
    let s = set_ok grants plenty p.editor t v l in
    let d : (H.previous grants p.history p.editor.text).0 ≡ ok = rw e w.0 in
    let f : (H.previous grants p.history p.editor.text).2 ≡ some t = rw e w.1 in
    simp z (shown-text grants p (H.previous grants p.history p.editor.text) t d f s.0 s.1)

-- What a commit with OI_OK leaves.
committed-ok :
    (grants : ℕ → Bool) (p : Prompt) (r : Status × H.History)
    → (committed grants p r).0 ≡ ok
    → let q = committed grants p r in
      (r.0 ≡ ok)
      × (q.2 ≡ some p.editor.text)
      × (q.1.editor.text ≡ [])
      × (length q.1.command_matches ≡ 0)
      × (q.1.history ≡ r.1)
unfolding refresh_commands Commands.filter Editor.clear
committed-ok grants p (ok, h) e = (refl, refl, refl, refl, refl)
committed-ok grants p (s, h) e = absurd (cc)

commit-committed :
    (grants : ℕ → Bool) (p : Prompt)
    → (commit grants p).0 ≡ ok
    → commit grants p ≡ committed grants p (H.append grants p.history p.editor.text)
unfolding commit
commit-committed grants p e = elim (Bool-cases (length p.editor.text == 0)) [
  | inl a ↦ absurd (ground arith)
  | inr a ↦ elim (Bool-cases (grants (length p.editor.text + 1))) [
    | inl b ↦ simp (a, b) refl
    | inr b ↦ absurd (ground arith)
  ]
]

-- With memory at hand, once a commit of a valid prompt has said OI_OK, it has handed out the
-- line, and an up-arrow says OI_OK and shows the line again, to be redrawn.
pub up-commit :
    (grants : ℕ → Bool) (plenty : (n : ℕ) → grants n ≡ true) (p : Prompt)
    → IsValid p
    → (commit grants p).0 ≡ ok
    → let q = commit grants p in
      let r = up grants q.1 in
      (q.2 ≡ some p.editor.text) × (r.0 ≡ ok) × (r.1.editor.text ≡ p.editor.text) × (r.2 ≡ redraw)
up-commit grants plenty p v e =
    let t = p.editor.text in
    let a = H.append grants p.history t in
    let same = commit-committed grants p e in
    let c = committed-ok grants p a (sym (ap (λ x. x.0) same) ∙ e) in
    let n = append-navigating grants p.history t c.0 in
    let l = append-last grants p.history t v.past c.0 in
    let q = (committed grants p a).1 in
    let h : a.1 ≡ q.history = sym c.4 in
    let r =
      up-shows grants plenty q t c.2 c.3 (subst (λ x. x.navigating ≡ false) h n.0)
        (subst (λ x. (get_or x.entries (length x.entries - 1) [] ≡ t) × (0 < length x.entries)) h l)
        n.1 v.line.1 in
    subst
      (λ x.
        (x.2 ≡ some t)
        × ((up grants x.1).0 ≡ ok)
        × ((up grants x.1).1.editor.text ≡ t)
        × ((up grants x.1).2 ≡ redraw))
      (sym same) (c.1, r.0, r.1, r.2)
