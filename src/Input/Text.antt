-- ===== src/Input/Text.antt =====
-- Text events: what they carry.
use oi_c.Prelude.{
  ℕ, ◌≡◌, ◌≢◌, inl, inr, refl, Bool, true, false, List, [], ◌∷◌, ltb, ◌==◌, min, length, get_or,
  take, Bytes, equal, arith, Bool-cases, Option-cases,
}
use oi_c.Status.{Result, val, err}
use oi_c.Utf8.{sequence_length}
use oi_c.Input.{
  EventType, text, Decoded, expected_length, text_event, decode_text, escape_mappings,
  paste_end_bytes, decode_mappings, decode_escape, decode_pasted, decode_plain, decode,
}

-- A text event carries exactly the bytes that it takes, which are one UTF-8 sequence.
abbrev pub Carries : Bool → Bytes → Decoded → Type 0
Carries pasting xs d =
    (sequence_length xs ≡ val d.consumed)
    × (d.event.bytes ≡ take d.consumed xs)
    × (d.event.pasted ≡ pasting)

abbrev Faithful : Bool → Bytes → Decoded → Type 0
Faithful pasting xs d = d.event.kind ≡ text → Carries pasting xs d

text_event-Faithful :
    (p : Bool) (xs : Bytes) (r : Result ℕ)
    → sequence_length xs ≡ r
    → Faithful p xs (text_event xs p r)
unfolding text_event
text_event-Faithful p xs (val n) e h = (e, refl, refl)
text_event-Faithful p xs (err c) e h = absurd (ground arith)

decode_text-Faithful : (p : Bool) (xs : Bytes) → Faithful p xs (decode_text xs p)
unfolding decode_text
decode_text-Faithful p xs = elim (Option-cases (expected_length (get_or xs 0 0))) [
  | inl e ↦ rw (e, decode_text) (λ h. absurd (ground arith))
  | inr (n, e) ↦ elim (Bool-cases (ltb (length xs) n)) [
    | inl short ↦ rw (e, decode_text, short) (λ h. absurd (ground arith))
    | inr enough ↦ rw (e, decode_text, enough) (text_event-Faithful p xs (sequence_length xs) refl)
  ]
]

-- The escape sequences stand for no text.
NoText : List (Bytes × EventType) → Type 0
NoText [] = Unit
NoText ((s, k) ∷ ms) = (k ≢ text) × NoText ms

decode_mappings-text :
    (ms : List (Bytes × EventType)) (q : Bool) (xs : Bytes)
    → NoText ms
    → (decode_mappings ms q xs).event.kind ≢ text
unfolding decode_mappings NoText
decode_mappings-text [] q xs a = ground arith
decode_mappings-text ((s, k) ∷ ms) q xs a =
    elim (Bool-cases
      (equal (take (min (length xs) (length s)) xs) (take (min (length xs) (length s)) s))) [
        | inr other ↦ rw other (decode_mappings-text ms q xs a.1)
        | inl same ↦ elim (Bool-cases (ltb (length xs) (length s))) [
          | inl short ↦ rw (same, short) (decode_mappings-text ms true xs a.1)
          | inr whole ↦ rw (same, whole) a.0
        ]
      ]

decode_escape-text : (xs : Bytes) → (decode_escape xs).event.kind ≢ text
unfolding decode_escape escape_mappings NoText
decode_escape-text xs = decode_mappings-text escape_mappings false xs ground arith

decode_pasted-Faithful : (xs : Bytes) → Faithful true xs (decode_pasted xs)
unfolding decode_pasted paste_end_bytes
decode_pasted-Faithful xs = ground (arith, decode_text-Faithful true xs)

decode_plain-Faithful : (c : ℕ) (xs : Bytes) → Faithful false xs (decode_plain c xs)
unfolding decode_plain
decode_plain-Faithful c xs = ground (arith, decode_text-Faithful false xs)

decode-Faithful : (pasting : Bool) (xs : Bytes) → Faithful pasting xs (decode pasting xs)
unfolding decode
decode-Faithful p [] = λ h. absurd (ground arith)
decode-Faithful true (x ∷ xs) = decode_pasted-Faithful (x ∷ xs)
decode-Faithful false (x ∷ xs) = elim (Bool-cases (x == 27)) [
  | inl e ↦ rw e (λ h. absurd (decode_escape-text (x ∷ xs) h))
  | inr e ↦ rw e (decode_plain-Faithful x (x ∷ xs))
]

-- A text event carries exactly the bytes that it takes, which are one well-formed UTF-8 sequence
-- at the start of the input, and is marked as pasted exactly in a decoder that is pasting.
pub decode-Carries :
    (pasting : Bool) (xs : Bytes)
    → (decode pasting xs).event.kind ≡ text
    → Carries pasting xs (decode pasting xs)
decode-Carries pasting xs h = decode-Faithful pasting xs h
