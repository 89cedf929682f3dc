-- ===== src/Json/Calls.antt =====
-- src/json_write.c: what each call does to the text and to the open containers, with memory at hand.
use oi_c.Prelude.{
  ℕ, suc, ◌+◌, ◌-◌, ◌*◌, ◌/◌, ◌≤◌, ◌<◌, ◌≡◌, inl, inr, refl, sym, ap, subst, Bool, true, false, not,
  ◌||◌, List, [], ◌∷◌, ◌++◌, append_assoc, append-nil, ◌∙◌, ltb, leb, ◌==◌, if◌then◌else◌, length,
  length-append, Bytes, size_max, Bool-cases, lt→ltb, le→ltb, arith,
}
use oi_c.Bytebuf.{Growth, grown, overflow, unfinished, grow}
use oi_c.Bytebuf.Laws.{Ends, grow-Ends}
use oi_c.Json.Escapes.{escaped_all-cons}
use oi_c.Json.Walk.{escaped_all, quoted, comma}
use oi_c.Json.Writer.{
  Frame, Writer, ◌>>=◌, escaped, end_in, end_value, ensure_buf, buf_grown, append_bytes, push_frame,
  begin_in, begin_value, append_escaped, append_escaped_string,
}
use oi_c.Status.{Status, ok}

-- An open container, as the grammar sees it: its kind, whether it has an element or a member in
-- front, and whether a key waits for its value.
pub record Slot : Type 0 where
  pub object : Bool
  pub begun : Bool
  pub due : Bool

abbrev pub slot_of : Frame → Slot
slot_of f = record { object = f.is_object; begun = ltb 0 f.written; due = f.awaiting_value }

abbrev pub slots : List Frame → List Slot
slots [] = []
slots (f ∷ fs) = slot_of f ∷ slots fs

length-slots : (fs : List Frame) → length (slots fs) ≡ length fs
length-slots [] = refl
length-slots (f ∷ fs) = ap suc (length-slots fs)

-- What the writer is to its client: the text, the open containers and whether the root is there.
pub record Page : Type 0 where
  pub text : Bytes
  pub open_slots : List Slot
  pub rooted : Bool

-- The writer stands at a page: no misuse, and its buffers are as large as their counts say.
pub record IsAt (w : Writer) (g : Page) : Type 0 where
  pub same_text : w.contents ≡ g.text
  pub same_slots : slots w.frames ≡ g.open_slots
  pub same_root : w.have_root ≡ g.rooted
  pub sound : w.failed ≡ false
  pub positive : 0 < w.cap
  pub sized : w.cap ≤ size_max

-- OI_OK, at the page.
abbrev pub Reaches : Status × Writer → Page → Type 0
Reaches r g = (r.0 ≡ ok) × IsAt r.1 g

-- No text that the buffers could not hold.
abbrev pub Room : Bytes → Type 0
Room text = length text < size_max / 2 / 24

abbrev pub page_text : Page → Bytes → Page
page_text g bytes = record g { text = g.text ++ bytes }

pub bind-Reaches :
    (r : Status × Writer) (k : Writer → Status × Writer) (g h : Page)
    → Reaches r g
    → ((w : Writer) → IsAt w g → Reaches (k w) h)
    → Reaches (r >>= k) h
bind-Reaches (ok, w) k g h a f = f w a.1
bind-Reaches (e, w) k g h a f = absurd (cc)

-- A value is complete.
abbrev pub filled : List Slot → List Slot
filled [] = []
filled (s ∷ ss) = record s { begun = true; due = false } ∷ ss

abbrev pub settled : List Slot → Bool → Bool
settled [] rooted = true
settled (s ∷ ss) rooted = rooted

abbrev pub settle : Page → Page
settle g = record g { open_slots = filled g.open_slots; rooted = settled g.open_slots g.rooted }

-- Where a value may start.
abbrev pub accepts : List Slot → Bool → Bool
accepts [] rooted = not rooted
accepts (s ∷ ss) rooted = not s.object || s.due

-- What stands in front of it.
abbrev pub lead : List Slot → Bytes
lead [] = []
lead (s ∷ ss) = if s.object then [] else comma (not s.begun)

end_in-IsAt :
    (fs : List Frame) (w : Writer) (g : Page)
    → w.frames ≡ fs
    → slots fs ≡ g.open_slots
    → IsAt w g
    → IsAt (end_in w fs) (settle g)
end_in-IsAt [] w g e o a = record {
  same_text = a.same_text;
  same_slots = rw (e, ← o) refl;
  same_root = rw (← o) refl;
  sound = a.sound;
  positive = a.positive;
  sized = a.sized;
}
end_in-IsAt (f ∷ fs) w g e o a = record {
  same_text = a.same_text;
  same_slots = rw (← o, lt→ltb 0 (f.written + 1) (omega arith)) refl;
  same_root = rw (← o) a.same_root;
  sound = a.sound;
  positive = a.positive;
  sized = a.sized;
}

pub end_value-IsAt : (w : Writer) (g : Page) → IsAt w g → IsAt (end_value w) (settle g)
unfolding end_value
end_value-IsAt w g a = end_in-IsAt w.frames w g refl a.same_slots a

pub unchanged : {w : Writer} {g : Page} → IsAt w g → IsAt w (page_text g [])
unchanged {g = g} a = record {
  same_text = a.same_text ∙ sym (append-nil g.text);
  same_slots = a.same_slots;
  same_root = a.same_root;
  sound = a.sound;
  positive = a.positive;
  sized = a.sized;
}

length-escaped : (c : ℕ) → 0 < length (escaped c)
unfolding escaped
length-escaped c = ground arith

length-escaped_all : (s : Bytes) → length s ≤ length (escaped_all s)
unfolding escaped_all
length-escaped_all [] = omega arith
length-escaped_all (c ∷ cs) = omega (
  arith,
  ap length (escaped_all-cons c cs),
  length-append (escaped c) (escaped_all cs),
  length-escaped c,
  length-escaped_all cs,
)

-- Two calls that put out a text each.
pub two :
    (s t : Bytes) (r : Status × Writer) (k : Writer → Status × Writer) (g : Page)
    → Room (g.text ++ (s ++ t))
    → (Room (g.text ++ s) → Reaches r (page_text g s))
    → ((w : Writer)
        → IsAt w (page_text g s)
        → Room ((g.text ++ s) ++ t)
        → Reaches (k w) (page_text (page_text g s) t))
    → Reaches (r >>= k) (page_text g (s ++ t))
two s t r k g h a f =
    let e : g.text ++ (s ++ t) ≡ (g.text ++ s) ++ t = sym (append_assoc g.text s t) in
    let room : Room ((g.text ++ s) ++ t) = subst Room e h in
    subst (λ x. Reaches (r >>= k) (record g { text = x })) (sym e)
      (bind-Reaches r k (page_text g s) (page_text (page_text g s) t)
        (a (omega (arith, length-append (g.text ++ s) t))) λ w b. f w b room)

module _ (grants : ℕ → Bool) (plenty : (n : ℕ) → grants n ≡ true) where
  buf_grown_ok :
      (w : Writer) (needed : ℕ) (g : Growth)
      → needed < size_max / 2 / 24 + 1
      → Ends needed g
      → (c : ℕ) × (buf_grown grants w g ≡ (ok, record w { cap = c }))
        × (needed ≤ c)
        × (c ≤ size_max)
  buf_grown_ok w needed (grown c) h e = (c, (rw (plenty c) refl), e.0, e.1)
  buf_grown_ok w needed overflow h e = absurd (omega arith)
  buf_grown_ok w needed unfinished h e = absurd e

  ensure_buf_ok :
      (w : Writer) (n : ℕ)
      → 0 < w.cap
      → w.cap ≤ size_max
      → length w.contents + n < size_max / 2 / 24
      → (c : ℕ) × (ensure_buf grants w n ≡ (ok, record w { cap = c })) × (0 < c) × (c ≤ size_max)
  unfolding ensure_buf
  ensure_buf_ok w n p s h =
      let needed : ℕ = length w.contents + n + 1 in
      let t : Ends needed (grow needed w.cap needed) =
        grow-Ends needed w.cap needed p s (omega arith) in
      let r = buf_grown_ok w needed (grow needed w.cap needed) (omega arith) t in
      elim (Bool-cases (leb needed w.cap)) [
        | inl e ↦ (w.cap, ground arith, p, s)
        | inr e ↦ (r.0, ground (arith, r.1), omega (arith, r.2), r.3)
      ]

  longer-IsAt :
      (bytes : Bytes) (w : Writer) (g : Page) (c : ℕ)
      → IsAt w g
      → 0 < c
      → c ≤ size_max
      → IsAt (record w { cap = c; contents = w.contents ++ bytes }) (page_text g bytes)
  longer-IsAt bytes w g c a p s = record {
    same_text = ap (λ t. t ++ bytes) a.same_text;
    same_slots = a.same_slots;
    same_root = a.same_root;
    sound = a.sound;
    positive = p;
    sized = s;
  }

  pub append_bytes-Reaches :
      (bytes : Bytes) (w : Writer) (g : Page)
      → IsAt w g
      → Room (g.text ++ bytes)
      → Reaches (append_bytes grants bytes w) (page_text g bytes)
  unfolding append_bytes
  append_bytes-Reaches bytes w g a h =
      let r =
        ensure_buf_ok w (length bytes) a.positive a.sized
          (omega (arith, length-append g.text bytes, ap length a.same_text)) in
      rw r.1 (refl, longer-IsAt bytes w g r.0 a r.2 r.3)

  pub push_frame-Reaches :
      (b : Bool) (w : Writer) (g : Page)
      → IsAt w g
      → length g.open_slots < size_max / 2 / 24
      → Reaches (push_frame grants b w) (record g {
        open_slots = record { object = b; begun = false; due = false } ∷ g.open_slots;
      })
  unfolding push_frame
  push_frame-Reaches b w g a h =
      let l : length w.frames < size_max / 2 / 24 =
        omega (arith, length-slots w.frames, ap length a.same_slots) in
      elim (Bool-cases (length w.frames == w.frame_cap)) [
        | inl e ↦
            let k : ltb (size_max / 2 / 24) w.frame_cap ≡ false = ground arith in
            rw (e, k, plenty (w.frame_cap * 2 * 24)) (refl, pushed (w.frame_cap * 2))
        | inr e ↦ rw e (refl, pushed w.frame_cap)
      ]
    where
      pushed :
          (c : ℕ)
          → IsAt
              (record w {
                frames = record { is_object = b; written = 0; awaiting_value = false } ∷ w.frames;
                frame_cap = c;
              })
              (record g {
                open_slots = record { object = b; begun = false; due = false } ∷ g.open_slots;
              })
      pushed c = record {
        same_text = a.same_text;
        same_slots = ap (λ ss. record { object = b; begun = false; due = false } ∷ ss) a.same_slots;
        same_root = a.same_root;
        sound = a.sound;
        positive = a.positive;
        sized = a.sized;
      }

  -- A container takes a value: a page with no root, an array, or an object behind a key.
  begin_in-Reaches :
      (fs : List Frame) (w : Writer) (g : Page)
      → IsAt w g
      → accepts (slots fs) g.rooted ≡ true
      → Room (g.text ++ lead (slots fs))
      → Reaches (begin_in grants w fs) (page_text g (lead (slots fs)))
  begin_in-Reaches [] w g a h m =
      let e : w.have_root ≡ false = ground (arith, a.same_root) in simp e (refl, unchanged a)
  begin_in-Reaches (f ∷ fs) w g a h m = elim (Bool-cases f.is_object) [
    | inl e ↦ let d : f.awaiting_value ≡ true = ground arith in simp (e, d) (refl, unchanged a)
    | inr e ↦ elim (Bool-cases (ltb 0 f.written)) [
      | inl k ↦ simp (e, k) (append_bytes-Reaches (b',' ∷ []) w g a (simp (e, k) at m))
      | inr k ↦ simp (e, k) (refl, unchanged a)
    ]
  ]

  pub begin_value-Reaches :
      (w : Writer) (g : Page)
      → IsAt w g
      → accepts g.open_slots g.rooted ≡ true
      → Room (g.text ++ lead g.open_slots)
      → Reaches (begin_value grants w) (page_text g (lead g.open_slots))
  unfolding begin_value
  begin_value-Reaches w g a = simp a.sound (
      subst
        (λ ss.
          accepts ss g.rooted ≡ true
          → Room (g.text ++ lead ss)
          → Reaches (begin_in grants w w.frames) (page_text g (lead ss)))
        a.same_slots (begin_in-Reaches w.frames w g a))

  pub append_escaped-Reaches :
      (s : Bytes) (w : Writer) (g : Page)
      → IsAt w g
      → Room (g.text ++ escaped_all s)
      → Reaches (append_escaped grants s w) (page_text g (escaped_all s))
  unfolding append_escaped escaped_all
  append_escaped-Reaches [] w g a h = (refl, unchanged a)
  append_escaped-Reaches (c ∷ cs) w g a h =
      let e = escaped_all-cons c cs in
      subst (λ x. Reaches (append_escaped grants (c ∷ cs) w) (page_text g x)) (sym e)
        (two (escaped c) (escaped_all cs) (append_bytes grants (escaped c) w)
          (append_escaped grants cs) g (subst (λ x. Room (g.text ++ x)) e h)
          (append_bytes-Reaches (escaped c) w g a)
          λ v b. append_escaped-Reaches cs v (page_text g (escaped c)) b)

  pub append_escaped_string-Reaches :
      (s : Bytes) (w : Writer) (g : Page)
      → IsAt w g
      → Room (g.text ++ quoted s)
      → Reaches (append_escaped_string grants s w) (page_text g (quoted s))
  unfolding append_escaped_string quoted
  append_escaped_string-Reaches s w g a h =
      let k : ltb ((size_max - 2) / 6) (length s) ≡ false = le→ltb ((size_max - 2) / 6) (length s) (
        omega (
          arith,
          length-escaped_all s,
          length-append (escaped_all s) (34 ∷ []),
          length-append g.text (quoted s),
        )) in
      rw k (
        two (34 ∷ escaped_all s) (34 ∷ [])
          (append_bytes grants (34 ∷ []) w >>= append_escaped grants s)
          (append_bytes grants (34 ∷ [])) g h
          (λ room.
            two (34 ∷ []) (escaped_all s) (append_bytes grants (34 ∷ []) w)
              (append_escaped grants s) g room (append_bytes-Reaches (34 ∷ []) w g a)
              λ v b. append_escaped-Reaches s v (page_text g (34 ∷ [])) b)
          λ v b. append_bytes-Reaches (34 ∷ []) v (page_text g (34 ∷ escaped_all s)) b)
