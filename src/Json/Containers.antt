-- ===== src/Json/Containers.antt =====
-- src/json_write.c: opening and closing a container, and an object's keys, with memory at hand.
use oi_c.Prelude.{
  ℕ, ◌≤◌, ◌≡◌, refl, Bool, true, false, not, ◌&&◌, ◌||◌, List, [], ◌∷◌, ◌++◌, ltb, if◌then◌else◌,
  length, length-append, Bytes, arith,
}
use oi_c.Json.Calls.{
  Slot, slots, Page, IsAt, Reaches, Room, page_text, filled, settled, settle, accepts, lead,
  bind-Reaches, end_value-IsAt, unchanged, two, append_bytes-Reaches, push_frame-Reaches,
  begin_value-Reaches, append_escaped_string-Reaches,
}
use oi_c.Json.Walk.{quoted, comma}
use oi_c.Json.Writer.{
  Frame, Writer, ◌>>=◌, end_value, ended, opening, closing, awaiting, append_bytes, begin_value,
  append_escaped_string, begin_container, close_in, end_container, key_in, write_object_key, differ,
}
use oi_c.Status.{Status, ok}

abbrev pub page : Bytes → List Slot → Bool → Page
page t ss r = record { text = t; open_slots = ss; rooted = r }

abbrev pub slot : Bool → Bool → Bool → Slot
slot o u d = record { object = o; begun = u; due = d }

-- A text and then the end of the value.
pub ended-Reaches : (r : Status × Writer) (g : Page) → Reaches r g → Reaches (ended r) (settle g)
ended-Reaches r g a = bind-Reaches r _ g (settle g) a λ w b. (refl, end_value-IsAt w g b)

differ_same : (b : Bool) → differ b b ≡ false
differ_same true = refl
differ_same false = refl

and_false : (b : Bool) → (b && false) ≡ false
and_false true = refl
and_false false = refl

pub length-filled : (ss : List Slot) → length (filled ss) ≡ length ss
length-filled [] = refl
length-filled (s ∷ ss) = refl

module _ (grants : ℕ → Bool) (plenty : (n : ℕ) → grants n ≡ true) where
  pub begin_container-Reaches :
      (b : Bool) (w : Writer) (t : Bytes) (ss : List Slot) (root : Bool)
      → IsAt w (page t ss root)
      → accepts ss root ≡ true
      → length ss ≤ length t
      → Room (t ++ (lead ss ++ opening b))
      → Reaches
          (begin_container grants b w)
          (page (t ++ (lead ss ++ opening b)) (slot b false false ∷ filled ss) (settled ss root))
  unfolding begin_container
  begin_container-Reaches b w t ss root a h l m =
      let t' = t ++ (lead ss ++ opening b) in
      bind-Reaches (begin_value grants w >>= append_bytes grants (opening b)) _ (page t' ss root) _
        (two (lead ss) (opening b) (begin_value grants w) (append_bytes grants (opening b))
          (page t ss root) m (begin_value-Reaches grants plenty w (page t ss root) a h)
          λ v c. append_bytes-Reaches grants plenty (opening b) v (page (t ++ lead ss) ss root) c)
        λ v c.
          push_frame-Reaches grants plenty b (end_value v) (settle (page t' ss root))
            (end_value-IsAt v (page t' ss root) c)
            (omega (
              arith,
              length-filled ss,
              length-append t (lead ss ++ opening b),
              length-append (lead ss) (opening b),
            ))

  close_in-Reaches :
      (fs : List Frame) (b u : Bool) (w : Writer) (t : Bytes) (ss : List Slot) (root : Bool)
      → slots fs ≡ slot b u false ∷ ss
      → IsAt w (page t (slot b u false ∷ ss) root)
      → Room (t ++ closing b)
      → Reaches (close_in grants b w fs) (settle (page (t ++ closing b) ss root))
  close_in-Reaches [] b u w t ss root e a h = cc
  close_in-Reaches (f ∷ fs) b u w t ss root e a h =
      let o : f.is_object ≡ b = cc in
      let d : f.awaiting_value ≡ false = cc in
      let q : slots fs ≡ ss = cc in
      let k : differ f.is_object b || f.is_object && f.awaiting_value ≡ false =
        rw (o, d, differ_same) (and_false b) in
      let g = page t (slot b u false ∷ ss) root in
      simp k (
        bind-Reaches (append_bytes grants (closing b) w) _ (page_text g (closing b)) _
          (append_bytes-Reaches grants plenty (closing b) w g a h)
          λ v c. (
            refl,
            end_value-IsAt (record v { frames = fs }) (page (t ++ closing b) ss root)
                (popped v c q),
          ))
    where
      popped :
          (v : Writer)
          → IsAt v (page (t ++ closing b) (slot b u false ∷ ss) root)
          → slots fs ≡ ss
          → IsAt (record v { frames = fs }) (page (t ++ closing b) ss root)
      popped v c q = record {
        same_text = c.same_text;
        same_slots = q;
        same_root = c.same_root;
        sound = c.sound;
        positive = c.positive;
        sized = c.sized;
      }

  pub end_container-Reaches :
      (b u : Bool) (w : Writer) (t : Bytes) (ss : List Slot) (root : Bool)
      → IsAt w (page t (slot b u false ∷ ss) root)
      → Room (t ++ closing b)
      → Reaches (end_container grants b w) (settle (page (t ++ closing b) ss root))
  unfolding end_container
  end_container-Reaches b u w t ss root a h =
      simp a.sound (close_in-Reaches w.frames b u w t ss root a.same_slots a h)

  comma-Reaches :
      (u : Bool) (w : Writer) (g : Page)
      → IsAt w g
      → Room (g.text ++ comma (not u))
      → Reaches
          (if u then append_bytes grants (b',' ∷ []) w else (ok, w))
          (page_text g (comma (not u)))
  comma-Reaches true w g a h = append_bytes-Reaches grants plenty (b',' ∷ []) w g a h
  comma-Reaches false w g a h = (refl, unchanged a)

  key_in-Reaches :
      (fs : List Frame) (key : Bytes) (u : Bool) (w : Writer) (t : Bytes) (ss : List Slot)
      (root : Bool)
      → slots fs ≡ slot true u false ∷ ss
      → IsAt w (page t (slot true u false ∷ ss) root)
      → Room (t ++ ((comma (not u) ++ quoted key) ++ (b':' ∷ [])))
      → Reaches
          (key_in grants key w fs)
          (page (t ++ ((comma (not u) ++ quoted key) ++ (b':' ∷ []))) (slot true u true ∷ ss) root)
  key_in-Reaches [] key u w t ss root e a h = cc
  key_in-Reaches (f ∷ fs) key u w t ss root e a h =
      let o : f.is_object ≡ true = cc in
      let d : f.awaiting_value ≡ false = cc in
      let n : ltb 0 f.written ≡ u = cc in
      let q : slots fs ≡ ss = cc in
      let g = page t (slot true u false ∷ ss) root in
      let text = (comma (not u) ++ quoted key) ++ (b':' ∷ []) in
      let all =
        bind-Reaches
          ((if u then append_bytes grants (b',' ∷ []) w else (ok, w))
            >>= append_escaped_string grants key
            >>= append_bytes grants (b':' ∷ []))
          (awaiting (f ∷ fs)) (page_text g text) (page (t ++ text) (slot true u true ∷ ss) root)
          (two (comma (not u) ++ quoted key) (b':' ∷ []) _ (append_bytes grants (b':' ∷ [])) g h
            (λ room.
              two (comma (not u)) (quoted key) _ (append_escaped_string grants key) g room
                (comma-Reaches u w g a)
                λ v c.
                  append_escaped_string-Reaches grants plenty key v (page_text g (comma (not u))) c)
            λ v c.
              append_bytes-Reaches grants plenty (b':' ∷ []) v
                (page_text g (comma (not u) ++ quoted key)) c)
          λ v c. (refl, key_written v c o n q) in
      simp (o, d, n) all
    where
      key_written :
          (v : Writer)
          → IsAt v (
              page
                (t ++ ((comma (not u) ++ quoted key) ++ (b':' ∷ [])))
                (slot true u false ∷ ss)
                root)
          → f.is_object ≡ true
          → ltb 0 f.written ≡ u
          → slots fs ≡ ss
          → IsAt
              (record v { frames = record f { awaiting_value = true } ∷ fs })
              (page
                (t ++ ((comma (not u) ++ quoted key) ++ (b':' ∷ [])))
                (slot true u true ∷ ss)
                root)
      key_written v c o n q = record {
        same_text = c.same_text;
        same_slots = rw (o, n, q) refl;
        same_root = c.same_root;
        sound = c.sound;
        positive = c.positive;
        sized = c.sized;
      }

  pub write_object_key-Reaches :
      (key : Bytes) (u : Bool) (w : Writer) (t : Bytes) (ss : List Slot) (root : Bool)
      → IsAt w (page t (slot true u false ∷ ss) root)
      → Room (t ++ ((comma (not u) ++ quoted key) ++ (b':' ∷ [])))
      → Reaches
          (write_object_key grants key w)
          (page (t ++ ((comma (not u) ++ quoted key) ++ (b':' ∷ []))) (slot true u true ∷ ss) root)
  unfolding write_object_key
  write_object_key-Reaches key u w t ss root a h =
      simp a.sound (key_in-Reaches w.frames key u w t ss root a.same_slots a h)
