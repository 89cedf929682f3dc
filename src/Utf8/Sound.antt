-- ===== src/Utf8/Sound.antt =====
-- What `sequence_length` accepts: exactly the encodings of Unicode scalar values.
use oi_c.Prelude.{
  ℕ, ◌+◌, ◌*◌, ◌%◌, ◌≤◌, ◌<◌, ◌≡◌, ◌⊎◌, inl, inr, [], ◌∷◌, arith, length, take, Bytes, ap, ◌∙◌,
}
use oi_c.Status.{val, err}
use oi_c.Utf8.{sequence_length, decode}
use oi_c.Utf8.Encode.{IsScalar, emit_utf8}

-- The first `n` bytes of `text` are the encoding of the scalar value `cp`.
pub record Encodes (text : Bytes) (n cp : ℕ) : Type 0 where
  pub scalar : IsScalar cp
  pub bytes : take n text ≡ emit_utf8 cp
  pub counted : n ≡ length (emit_utf8 cp)
  pub within_text : n ≤ length text

-- The code point that the bytes of a sequence of length `n` stand for.
abbrev pub value_of : Bytes → ℕ → ℕ
value_of text n = elim (decode (take n text)) [ val cp ↦ cp | err _ ↦ 0 ]

-- `10xxxxxx`
abbrev IsTail : ℕ → Type 0
IsTail b = (0x80 ≤ b) × (b < 0xc0)

-- What the tests establish of a sequence of each length, and how those bytes are encoded.
module _ (a b c d : ℕ) (rest : Bytes) where
  tests_1 : sequence_length (a ∷ rest) ≡ val 1 → a < 0x80
  unfolding sequence_length
  tests_1 h = ground arith

  tests_2 : sequence_length (a ∷ b ∷ rest) ≡ val 2 → ((0xc2 ≤ a) × (a < 0xe0)) × IsTail b
  unfolding sequence_length
  tests_2 h = ground arith

  tests_3 :
      sequence_length (a ∷ b ∷ c ∷ rest) ≡ val 3
      → ((0xe0 ≤ a) × (a < 0xf0))
        × IsTail b
        × IsTail c
        × (a ≡ 0xe0 → 0xa0 ≤ b)
        × (a ≡ 0xed → b < 0xa0)
  unfolding sequence_length
  tests_3 h = ground arith

  tests_4 :
      sequence_length (a ∷ b ∷ c ∷ d ∷ rest) ≡ val 4
      → ((0xf0 ≤ a) × (a < 0xf5))
        × IsTail b
        × IsTail c
        × IsTail d
        × (a ≡ 0xf0 → 0x90 ≤ b)
        × (a ≡ 0xf4 → b < 0x90)
  unfolding sequence_length
  tests_4 h = ground arith

  cases_4 :
      (n : ℕ)
      → sequence_length (a ∷ b ∷ c ∷ d ∷ rest) ≡ val n
      → (n ≡ 1) ⊎ (n ≡ 2) ⊎ (n ≡ 3) ⊎ (n ≡ 4)
  unfolding sequence_length
  cases_4 n h = ground arith

  one_byte : a < 0x80 → Encodes (a ∷ rest) 1 a
  unfolding emit_utf8
  one_byte h = ground arith

  two_bytes : ((0xc2 ≤ a) × (a < 0xe0)) × IsTail b → Encodes (a ∷ b ∷ rest) 2 (a % 32 * 64 + b % 64)
  unfolding emit_utf8
  two_bytes h = ground arith

  three_bytes :
      ((0xe0 ≤ a) × (a < 0xf0))
        × IsTail b
        × IsTail c
        × (a ≡ 0xe0 → 0xa0 ≤ b)
        × (a ≡ 0xed → b < 0xa0)
      → Encodes (a ∷ b ∷ c ∷ rest) 3 (a % 16 * 4096 + b % 64 * 64 + c % 64)
  unfolding emit_utf8
  three_bytes h = ground arith

  four_bytes :
      ((0xf0 ≤ a) × (a < 0xf5))
        × IsTail b
        × IsTail c
        × IsTail d
        × (a ≡ 0xf0 → 0x90 ≤ b)
        × (a ≡ 0xf4 → b < 0x90)
      → Encodes (a ∷ b ∷ c ∷ d ∷ rest) 4 (a % 8 * 262144 + b % 64 * 4096 + c % 64 * 64 + d % 64)
  unfolding emit_utf8
  four_bytes h = ground arith

-- Whatever is accepted is the encoding of the code point that `decode` reads.
pub sequence_length_sound :
    (text : Bytes) (n : ℕ) → sequence_length text ≡ val n → Encodes text n (value_of text n)
unfolding decode
sequence_length_sound [] n h = unfold sequence_length in cc
sequence_length_sound (a ∷ []) n h = unfold sequence_length emit_utf8 in ground arith
sequence_length_sound (a ∷ b ∷ []) n e = unfold sequence_length emit_utf8 in ground arith
sequence_length_sound (a ∷ b ∷ c ∷ []) n e = unfold sequence_length emit_utf8 in ground arith
sequence_length_sound (a ∷ b ∷ c ∷ d ∷ rest) n e = elim (cases_4 a b c d rest n e) [
  | inl e1 ↦
      rw e1
        (one_byte a b c d (b ∷ c ∷ d ∷ rest) (tests_1 a b c d (b ∷ c ∷ d ∷ rest) (e ∙ ap val e1)))
  | inr (inl e2) ↦
      rw e2 (two_bytes a b c d (c ∷ d ∷ rest) (tests_2 a b c d (c ∷ d ∷ rest) (e ∙ ap val e2)))
  | inr (inr (inl e3)) ↦
      rw e3 (three_bytes a b c d (d ∷ rest) (tests_3 a b c d (d ∷ rest) (e ∙ ap val e3)))
  | inr (inr (inr e4)) ↦ rw e4 (four_bytes a b c d rest (tests_4 a b c d rest (e ∙ ap val e4)))
]
