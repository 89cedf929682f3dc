-- ===== src/Utf8Stream/Identity.antt =====
-- Well-formed input passes through the stream unchanged.
use oi_c.Prelude.{
  ℕ, ◌+◌, ◌/◌, ◌%◌, ◌≤◌, ◌<◌, ◌≡◌, inl, inr, refl, sym, ap, ◌∙◌, subst, Bool, true, List, [], ◌∷◌,
  ◌++◌, leb, length, Bytes, All, some, arith, append-nil, Bool-cases,
}
use oi_c.Status.{ok, val}
use oi_c.Utf8.{lead_length, sequence_length, is_continuation}
use oi_c.Utf8.Encode.{IsScalar, emit_utf8, emit_all}
use oi_c.Utf8.RoundTrip.{sequence_length-emit_utf8}
use oi_c.Utf8.Text.{IsText}
use oi_c.Bytebuf.{Bytebuf}
use oi_c.Pump.{Fed, byte, transduce}
use oi_c.Pump.Refine.{feed-transduce, transduce-append}
use oi_c.Utf8Stream.{Utf8Stream, flushed, feed_one, feed_lead, feed_tail, utf8_machine, feed}
use oi_c.Utf8Stream.Laws.{utf8-Lawful}

abbrev IsTail : ℕ → Type 0
IsTail b = is_continuation b ≡ true

-- The four forms of a character, by the length that its lead byte announces.
data Form : Bytes → Type 0 where
  one : (a : ℕ) → lead_length a ≡ val 1 → Form (a ∷ [])
  two : (a b : ℕ) → lead_length a ≡ val 2 → IsTail b → Form (a ∷ b ∷ [])
  three : (a b c : ℕ) → lead_length a ≡ val 3 → IsTail b → IsTail c → Form (a ∷ b ∷ c ∷ [])
  four :
      (a b c d : ℕ)
      → lead_length a ≡ val 4
      → IsTail b
      → IsTail c
      → IsTail d
      → Form (a ∷ b ∷ c ∷ d ∷ [])

IsTail-byte : (x : ℕ) → IsTail (0x80 + x % 64)
unfolding is_continuation
IsTail-byte x = ground arith

lead_2 : (cp : ℕ) → 0x7f < cp → cp ≤ 0x7ff → lead_length (0xc0 + cp / 64) ≡ val 2
unfolding lead_length
lead_2 cp h k = ground arith

lead_3 : (cp : ℕ) → cp ≤ 0xffff → lead_length (0xe0 + cp / 4096) ≡ val 3
unfolding lead_length
lead_3 cp k = ground arith

lead_4 : (cp : ℕ) → cp < 0x110000 → lead_length (0xf0 + cp / 262144) ≡ val 4
unfolding lead_length
lead_4 cp k = ground arith

lead_1 : (cp : ℕ) → cp ≤ 0x7f → lead_length cp ≡ val 1
unfolding lead_length
lead_1 cp h = ground arith

Form-emit_utf8 : (cp : ℕ) → IsScalar cp → Form (emit_utf8 cp)
unfolding emit_utf8
Form-emit_utf8 cp s = elim (Bool-cases (leb cp 0x7f)) [
  | inl h ↦ rw h (one cp (lead_1 cp (ground arith)))
  | inr h1 ↦ elim (Bool-cases (leb cp 0x7ff)) [
    | inl h ↦ rw (h1, h) (two _ _ (lead_2 cp (ground arith) (ground arith)) (IsTail-byte cp))
    | inr h2 ↦ elim (Bool-cases (leb cp 0xffff)) [
      | inl h ↦
          rw (h1, h2, h)
            (three _ _ _ (lead_3 cp (ground arith)) (IsTail-byte (cp / 64)) (IsTail-byte cp))
      | inr h3 ↦
          rw (h1, h2, h3)
            (four _ _ _ _ (lead_4 cp (omega arith)) (IsTail-byte (cp / 4096))
              (IsTail-byte (cp / 64)) (IsTail-byte cp))
    ]
  ]
]

-- The stream after a whole character, and what it has appended.
abbrev Passes : Utf8Stream → Bytes → Type 0
Passes s bs =
    ((transduce utf8_machine s bs).0.pending ≡ []) × ((transduce utf8_machine s bs).1 ≡ bs)

Form-Passes :
    (s : Utf8Stream) {bs : Bytes}
    → Form bs
    → s.pending ≡ []
    → sequence_length bs ≡ val (length bs)
    → Passes s bs
unfolding transduce byte feed_one feed_lead feed_tail flushed
Form-Passes s (one a h) p q = ground arith
Form-Passes s (two a b h hb) p q = ground arith
Form-Passes s (three a b c h hb hc) p q = ground arith
Form-Passes s (four a b c d h hb hc hd) p q = ground arith

transduce-emit_all :
    (cps : List ℕ) (s : Utf8Stream) → s.pending ≡ [] → All IsScalar cps → Passes s (emit_all cps)
unfolding emit_all
transduce-emit_all [] s p h = unfold transduce in (p, refl)
transduce-emit_all (cp ∷ cps) s p (h, hs) =
    let whole =
      ap sequence_length (sym (append-nil (emit_utf8 cp))) ∙ sequence_length-emit_utf8 cp [] h in
    let first = Form-Passes s (Form-emit_utf8 cp h) p whole in
    let later = transduce-emit_all cps (transduce utf8_machine s (emit_utf8 cp)).0 first.0 hs in
    rw (transduce-append utf8_machine utf8-Lawful s (emit_utf8 cp) (emit_all cps)) (
      later.0,
      ap
            (λ t.
              t
              ++ (transduce utf8_machine (transduce utf8_machine s (emit_utf8 cp)).0
                  (emit_all cps)).1)
            first.1
          ∙ ap (◌++◌ (emit_utf8 cp)) later.1,
    )

-- A call on a stream with nothing pending that says OI_OK on a well-formed text appends that text
-- as it is, and leaves nothing pending.
pub feed_identity :
    (grants : ℕ → Bool) (s : Utf8Stream) (xs : Bytes) (out : Bytebuf) (r : Fed Utf8Stream)
    → s.pending ≡ []
    → IsText xs
    → feed grants s xs out ≡ some r
    → r.status ≡ ok
    → (r.out.contents ≡ out.contents ++ xs) × (r.state.pending ≡ [])
unfolding feed
feed_identity grants s xs out r p t h k =
    let f = feed-transduce utf8_machine utf8-Lawful grants s xs out r h k in
    let g = subst (Passes s) (sym t.2) (transduce-emit_all t.0 s p t.1) in
    (f.1 ∙ ap (◌++◌ out.contents) g.1, ap (λ (q : Utf8Stream). q.pending) f.0 ∙ g.0)
