-- ===== src/Sanitize/Controls.antt =====
-- The controls U+0080 to U+009F, which UTF-8 writes as 0xC2 0x80 .. 0xC2 0x9F.
use oi_c.Prelude.{
  ℕ, ◌≤◌, ◌<◌, ◌≡◌, ◌≢◌, ◌⊎◌, inl, inr, refl, Bool, [], ◌∷◌, ◌++◌, arith, Bytes, some, List, All,
  subst, sym,
}
use oi_c.Status.{ok}
use oi_c.Utf8.Encode.{IsScalar, emit_utf8, emit_all}
use oi_c.Utf8.Text.{IsText}
use oi_c.Bytebuf.{Bytebuf}
use oi_c.Pump.{Fed, byte, transduce}
use oi_c.Pump.Refine.{feed-transduce}
use oi_c.Sanitize.Laws.{sanitize-Lawful}
use oi_c.Sanitize.{
  Phase, normal, saw_c2, escape, csi, string, string_esc, Sanitizer, feed_in, sanitize_machine,
  feed,
}

abbrev StartsIn : ℕ → ℕ → Bytes → Type 0
StartsIn lo hi [] = ⊥
StartsIn lo hi (y ∷ _) = (lo ≤ y) × (y < hi)

-- Each 0xC2 stands before a byte from `lo` up to `hi`.
abbrev pub C2Before : ℕ → ℕ → Bytes → Type 0
C2Before lo hi [] = Unit
C2Before lo hi (x ∷ xs) = (x ≡ 0xc2 → StartsIn lo hi xs) × C2Before lo hi xs

-- What one byte of input makes the sanitizer append.
abbrev Piece : ℕ → Bytes → Type 0
Piece x e = (e ≡ []) ⊎ ((e ≡ x ∷ []) × (x ≢ 0xc2)) ⊎ ((e ≡ 0xc2 ∷ x ∷ []) × (0xa0 ≤ x) × (x < 0xc0))

byte-Piece :
    (p : Phase) (s : Sanitizer) (x : ℕ)
    → s.phase ≡ p
    → (p ≡ saw_c2 → (0x80 ≤ x) × (x < 0xc0))
    → Piece x (byte sanitize_machine s x).1
      × ((byte sanitize_machine s x).0.phase ≡ saw_c2 → x ≡ 0xc2)
unfolding byte feed_in
byte-Piece normal s x e h = ground arith
byte-Piece saw_c2 s x e h = ground arith
byte-Piece escape s x e h = ground arith
byte-Piece csi s x e h = ground arith
byte-Piece string s x e h = ground arith
byte-Piece string_esc s x e h = ground arith

C2Before-Piece :
    (x : ℕ) (e rest : Bytes) → Piece x e → C2Before 0xa0 0xc0 rest → C2Before 0xa0 0xc0 (e ++ rest)
C2Before-Piece x e rest (inl h) r = rw h r
C2Before-Piece x e rest (inr (inl (h, n))) r = rw h ((λ q. absurd (n q)), r)
C2Before-Piece x e rest (inr (inr (h, l, u))) r =
    rw h ((λ q. (l, u)), ((λ q. absurd (omega arith)), r))

transduce-C2Before :
    (xs : Bytes) (s : Sanitizer)
    → C2Before 0x80 0xc0 xs
    → (s.phase ≡ saw_c2 → StartsIn 0x80 0xc0 xs)
    → C2Before 0xa0 0xc0 (transduce sanitize_machine s xs).1
unfolding transduce
transduce-C2Before [] s f h = tt
transduce-C2Before (x ∷ xs) s f h =
    let (p, n) = byte-Piece s.phase s x refl h in
    C2Before-Piece x _ _ p
      (transduce-C2Before xs (byte sanitize_machine s x).0 f.1 (λ q. f.0 (n q)))

C2Before-emit_utf8 :
    (cp : ℕ) (rest : Bytes)
    → IsScalar cp
    → C2Before 0x80 0xc0 rest
    → C2Before 0x80 0xc0 (emit_utf8 cp ++ rest)
unfolding emit_utf8
C2Before-emit_utf8 cp rest s h = ground arith

C2Before-emit_all : (cps : List ℕ) → All IsScalar cps → C2Before 0x80 0xc0 (emit_all cps)
unfolding emit_all
C2Before-emit_all [] s = tt
C2Before-emit_all (cp ∷ cps) (s, ss) = C2Before-emit_utf8 cp _ s (C2Before-emit_all cps ss)

-- A call on well-formed UTF-8 that says OI_OK, in any phase but the one that holds a 0xC2,
-- appends bytes in which every 0xC2 stands before a byte from 0xA0 up: no control from U+0080 to
-- U+009F gets through.
pub feed-C2Before :
    (grants : ℕ → Bool) (s : Sanitizer) (xs : Bytes) (out : Bytebuf) (r : Fed Sanitizer)
    → IsText xs
    → s.phase ≢ saw_c2
    → feed grants s xs out ≡ some r
    → r.status ≡ ok
    → (e : Bytes) × (r.out.contents ≡ out.contents ++ e) × C2Before 0xa0 0xc0 e
unfolding feed
feed-C2Before grants s xs out r t n h k = (
  (transduce sanitize_machine s xs).1,
  (feed-transduce sanitize_machine sanitize-Lawful grants s xs out r h k).1,
  transduce-C2Before xs s (subst (C2Before 0x80 0xc0) (sym t.2) (C2Before-emit_all t.0 t.1))
      (λ q. absurd (n q)),
)
