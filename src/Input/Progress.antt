-- ===== src/Input/Progress.antt =====
-- The decoder always goes on: what a call takes, and when it asks for more.
use oi_c.Prelude.{
  ℕ, suc, ◌≤◌, ◌<◌, ◌≡◌, ◌⊎◌, inl, inr, refl, Bool, true, false, List, [], ◌∷◌, ltb, ◌==◌, min,
  length, take, Bytes, equal, some, arith, All, Bool-cases, Option-cases,
}
use oi_c.Status.{Result-cases, ok, err_again}
use oi_c.Utf8.{sequence_length}
use oi_c.Utf8.Boundary.{sequence_length_bounds}
use oi_c.Input.{
  EventType, Decoded, expected_length, text_event, decode_text, escape_mappings, paste_end_bytes,
  decode_mappings, decode_escape, decode_pasted, decode_plain, decode,
}

-- An event of one or more of the bytes at hand; or a demand for more, made with fewer than six at
-- hand, which takes nothing and leaves the decoder as it is.
abbrev pub Progress : Bool → Bytes → Decoded → Type 0
Progress pasting xs d =
    (d.status ≡ ok) × (1 ≤ d.consumed) × (d.consumed ≤ length xs)
    ⊎ (d.status ≡ err_again) × (d.consumed ≡ 0) × (length xs < 6) × (d.pasting ≡ pasting)

expected_length-le : (c n : ℕ) → expected_length c ≡ some n → n ≤ 4
unfolding expected_length
expected_length-le c n h = ground arith

text_event-Progress :
    (p : Bool) (x : ℕ) (xs : Bytes)
    → Progress p (x ∷ xs) (text_event (x ∷ xs) p (sequence_length (x ∷ xs)))
unfolding text_event
text_event-Progress p x xs = elim (Result-cases (sequence_length (x ∷ xs))) [
  | inl (n, e) ↦
      rw e (
        inl
          (refl, (sequence_length_bounds (x ∷ xs) n e).0, (sequence_length_bounds (x ∷ xs) n e).1))
  | inr (c, e) ↦ rw e (inl (refl, omega arith, omega arith))
]

decode_text-Progress :
    (p : Bool) (x : ℕ) (xs : Bytes) → Progress p (x ∷ xs) (decode_text (x ∷ xs) p)
unfolding decode_text
decode_text-Progress p x xs = elim (Option-cases (expected_length x)) [
  | inl e ↦ rw (e, decode_text) (inl (refl, omega arith, omega arith))
  | inr (n, e) ↦
      rw (e, decode_text) (ground (arith, expected_length-le x n e, text_event-Progress p x xs))
]

decode_mappings-Progress :
    (ms : List (Bytes × EventType))
    → All (λ m. (1 ≤ length m.0) × (length m.0 ≤ 6)) ms
    → (has_prefix : Bool) (x : ℕ) (xs : Bytes) → (has_prefix ≡ true → length (x ∷ xs) < 6)
    → Progress false (x ∷ xs) (decode_mappings ms has_prefix (x ∷ xs))
unfolding decode_mappings
decode_mappings-Progress [] a q x xs h = ground arith
decode_mappings-Progress ((s, k) ∷ ms) a q x xs h =
    elim (Bool-cases (
      equal (take (min (suc (length xs)) (length s)) (x ∷ xs))
        (take (min (suc (length xs)) (length s)) s))) [
          | inr other ↦ rw other (decode_mappings-Progress ms a.1 q x xs h)
          | inl same ↦ elim (Bool-cases (ltb (suc (length xs)) (length s))) [
            | inl short ↦
                rw (same, short)
                  (decode_mappings-Progress ms a.1 true x xs (λ t. ground (arith, a.0)))
            | inr whole ↦ rw (same, whole) (inl (refl, a.0.0, ground arith))
          ]
        ]

decode_escape-Progress : (x : ℕ) (xs : Bytes) → Progress false (x ∷ xs) (decode_escape (x ∷ xs))
unfolding decode_escape escape_mappings
decode_escape-Progress x xs =
    decode_mappings-Progress escape_mappings ground arith false x xs (λ t. ground arith)

decode_pasted-Progress : (x : ℕ) (xs : Bytes) → Progress true (x ∷ xs) (decode_pasted (x ∷ xs))
unfolding decode_pasted paste_end_bytes
decode_pasted-Progress x xs = ground (arith, decode_text-Progress true x xs)

decode_plain-Progress : (x : ℕ) (xs : Bytes) → Progress false (x ∷ xs) (decode_plain x (x ∷ xs))
unfolding decode_plain
decode_plain-Progress x xs = ground (arith, decode_text-Progress false x xs)

-- With bytes at hand the input decoder either gives an event for at least one of them and no more
-- than there are, or asks for more: then it has fewer than six at hand, takes none and keeps its
-- pasting flag.
pub decode-Progress :
    (pasting : Bool) (x : ℕ) (xs : Bytes) → Progress pasting (x ∷ xs) (decode pasting (x ∷ xs))
unfolding decode
decode-Progress true x xs = decode_pasted-Progress x xs
decode-Progress false x xs = elim (Bool-cases (x == 27)) [
  | inl e ↦ rw e (decode_escape-Progress x xs)
  | inr e ↦ rw e (decode_plain-Progress x xs)
]
