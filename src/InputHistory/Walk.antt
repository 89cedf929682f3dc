-- ===== src/InputHistory/Walk.antt =====
-- The walk: back and forth again.
use oi_c.Prelude.{
  ℕ, ◌+◌, ◌-◌, ◌≤◌, ◌≡◌, refl, Bool, true, false, [], ◌==◌, if◌then◌else◌, length, get_or, Bytes,
  some, arith, ap, ◌∙◌,
}
use oi_c.Status.{ok}
use oi_c.InputHistory.{History, validate_text, step_back, previous, draft_text, next}

-- What a walk that stands at index `i` shows: an entry, or behind the newest the draft.
abbrev pub shown : History → ℕ → Bytes
shown h i = if i == length h.entries then draft_text h.draft else get_or h.entries i []

-- A step back from inside a walk, at a positive index within the entries, and a step forth
-- restore the history and show what stood at that index: an entry, or the draft behind the
-- newest.
pub next-step_back :
    (h : History)
    → h.navigating ≡ true
    → 1 ≤ h.navigation_index
    → h.navigation_index ≤ length h.entries
    → next (step_back h).1 ≡ (ok, h, some (shown h h.navigation_index))
unfolding next step_back
next-step_back h n i l =
    let back : h.navigation_index - 1 + 1 ≡ h.navigation_index = omega (arith, i) in
    let inside : (h.navigation_index - 1 == length h.entries) ≡ false = ground arith in
    rw (n, inside, back) refl

-- A walk begun on a draft, which is validated and copied.
abbrev pub begun : History → Bytes → History
begun h text = record h {
  draft = some text;
  navigation_index = length h.entries;
  navigating = true;
}

-- From a history that is not being walked and holds an entry, over a valid draft that can be
-- copied, a first step back is a step to the newest entry of a walk begun at the draft, and a
-- step forth from there shows the draft again.
pub next-previous :
    (grants : ℕ → Bool) (h : History) (text : Bytes)
    → h.navigating ≡ false
    → 1 ≤ length h.entries
    → validate_text text true ≡ ok
    → grants (length text + 1) ≡ true
    → (previous grants h text ≡ step_back (begun h text))
      × (next (previous grants h text).1 ≡ (ok, begun h text, some text))
unfolding previous
next-previous grants h text n l v g =
    let some_entry : (length h.entries == 0) ≡ false = ground arith in
    let first : previous grants h text ≡ step_back (begun h text) =
      rw (previous, some_entry, n, v, g) refl in
    (
      first,
      ap (λ r. next r.1) first
          ∙ next-step_back (begun h text) refl l (omega arith)
          ∙ (let same : (length h.entries == length h.entries) ≡ true = ground arith in
              rw same refl),
    )
