-- ===== src/Json/Output.antt =====
-- src/json_write.c under the walk of test/fuzz/fuzz_json.c: the text that is written.
use oi_c.Prelude.{
  ℕ, ◌≤◌, ◌<◌, ◌≡◌, refl, sym, subst, Bool, true, false, not, List, [], ◌∷◌, ◌++◌, append_assoc,
  leb, if◌then◌else◌, length, length-append, Bytes, codes, arith,
}
use oi_c.Json.Calls.{
  Slot, Page, IsAt, Reaches, Room, page_text, filled, settled, settle, accepts, lead, bind-Reaches,
  two, append_bytes-Reaches, begin_value-Reaches, append_escaped_string-Reaches, unchanged,
}
use oi_c.Json.Containers.{
  page, slot, ended-Reaches, begin_container-Reaches, end_container-Reaches,
  write_object_key-Reaches, length-filled,
}
use oi_c.Json.Value.{
  Value, Items, Members, null, boolean, number, string, array, object, nil, cons, end, member,
}
use oi_c.Json.Walk.{
  write_value, write_items, write_members, render, render_items, render_members, quoted, comma,
}
use oi_c.Json.Writer.{
  Writer, create, ◌>>=◌, opening, closing, ended, append_bytes, begin_value, write_null, write_bool,
  write_number, write_string, begin_container, end_container, write_object_key,
}
use oi_c.Status.{Status, ok}

bind_at :
    (r : Status × Writer) (k : Writer → Status × Writer) (g h : Page)
    → Reaches r g
    → Reaches (k r.1) h
    → Reaches (r >>= k) h
bind_at (ok, w) k g h a b = b
bind_at (e, w) k g h a b = absurd (cc)

>>=_assoc :
    (r : Status × Writer) (f g : Writer → Status × Writer)
    → (r >>= f >>= g) ≡ (r >>= λ w. f w >>= g)
>>=_assoc (ok, w) f g = refl
>>=_assoc (e, w) f g = refl

retext :
    {r : Status × Writer} {s t : Bytes} {ss : List Slot} {root : Bool}
    → s ≡ t
    → Reaches r (page t ss root)
    → Reaches r (page s ss root)
retext {r = r} {ss = ss} {root = root} e a = subst (λ x. Reaches r (page x ss root)) (sym e) a

settle_twice :
    (t : Bytes) (ss : List Slot) (root : Bool)
    → settle (page t (filled ss) (settled ss root)) ≡ settle (page t ss root)
settle_twice t [] root = refl
settle_twice t (s ∷ ss) root = refl

-- Every number of a value satisfies `P`.
unfoldable mutual
  pub AllNumbers : {N : Type 0} → (N → Type 0) → Value N → Type 0
  AllNumbers P null = Unit
  AllNumbers P (boolean b) = Unit
  AllNumbers P (number x) = P x
  AllNumbers P (string s) = Unit
  AllNumbers P (array vs) = EachItem P vs
  AllNumbers P (object ms) = EachMember P ms

  pub EachItem : {N : Type 0} → (N → Type 0) → Items N → Type 0
  EachItem P nil = Unit
  EachItem P (cons v vs) = AllNumbers P v × EachItem P vs

  pub EachMember : {N : Type 0} → (N → Type 0) → Members N → Type 0
  EachMember P end = Unit
  EachMember P (member key v ms) = AllNumbers P v × EachMember P ms

create-IsAt : IsAt create (page [] [] false)
unfolding create
create-IsAt = record {
  same_text = refl;
  same_slots = refl;
  same_root = refl;
  sound = refl;
  positive = omega arith;
  sized = omega arith;
}

module _ {N : Type 0} (format : N → Bytes) (finite : N → Bool) (grants : ℕ → Bool)
    (plenty : (n : ℕ) → grants n ≡ true) (short : (x : N) → length (format x) < 64) where
  abbrev Finite : N → Type 0
  Finite x = finite x ≡ true

  abbrev WritesAny : Value N → Type 0
  WritesAny v =
      (w : Writer) (t : Bytes) (ss : List Slot) (root : Bool)
      → IsAt w (page t ss root)
      → accepts ss root ≡ true
      → length ss ≤ length t
      → Room (t ++ (lead ss ++ render format v))
      → Reaches (write_value format finite grants v w)
          (settle (page (t ++ (lead ss ++ render format v)) ss root))

  abbrev WritesSome : Items N → Type 0
  WritesSome vs =
      (u : Bool) (w : Writer) (t : Bytes) (ss : List Slot) (root : Bool)
      → IsAt w (page t (slot false u false ∷ ss) root)
      → length ss < length t
      → Room (t ++ render_items format (not u) vs)
      → (u' : Bool) × Reaches (write_items format finite grants vs w)
          (page (t ++ render_items format (not u) vs) (slot false u' false ∷ ss) root)

  abbrev WritesAll : Members N → Type 0
  WritesAll ms =
      (u : Bool) (w : Writer) (t : Bytes) (ss : List Slot) (root : Bool)
      → IsAt w (page t (slot true u false ∷ ss) root)
      → length ss < length t
      → Room (t ++ render_members format (not u) ms)
      → (u' : Bool) × Reaches (write_members format finite grants ms w)
          (page (t ++ render_members format (not u) ms) (slot true u' false ∷ ss) root)

  abbrev Writes : Value N → Type 0
  Writes v = AllNumbers Finite v → WritesAny v

  abbrev WritesItems : Items N → Type 0
  WritesItems vs = EachItem Finite vs → WritesSome vs

  abbrev WritesMembers : Members N → Type 0
  WritesMembers ms = EachMember Finite ms → WritesAll ms

  -- A value that is one text.
  scalar-Reaches :
      (text : Bytes) (k : Writer → Status × Writer)
      → ((w : Writer) (g : Page)
          → IsAt w g
          → Room (g.text ++ text)
          → Reaches (k w) (page_text g text))
      → (w : Writer) (t : Bytes) (ss : List Slot) (root : Bool) → IsAt w (page t ss root)
      → accepts ss root ≡ true
      → Room (t ++ (lead ss ++ text))
      → Reaches
          (ended (begin_value grants w >>= k))
          (settle (page (t ++ (lead ss ++ text)) ss root))
  scalar-Reaches text k f w t ss root a h m =
      ended-Reaches (begin_value grants w >>= k) (page (t ++ (lead ss ++ text)) ss root) (
        two (lead ss) text (begin_value grants w) k (page t ss root) m
          (begin_value-Reaches grants plenty w (page t ss root) a h)
          λ v b. f v (page (t ++ lead ss) ss root) b)

  number-Reaches :
      (x : N)
      → finite x ≡ true
      → (w : Writer) (t : Bytes) (ss : List Slot) (root : Bool) → IsAt w (page t ss root)
      → accepts ss root ≡ true
      → Room (t ++ (lead ss ++ format x))
      → Reaches
          (write_number format finite grants x w)
          (settle (page (t ++ (lead ss ++ format x)) ss root))
  unfolding write_number
  number-Reaches x c w t ss root a h m =
      let s : leb 64 (length (format x)) ≡ false = ground (arith, short x) in
      let done =
        scalar-Reaches (format x) _ (append_bytes-Reaches grants plenty (format x)) w t ss root a h
          m in
      simp (c, s, sym (>>=_assoc (begin_value grants w) (append_bytes grants (format x)) _)) done

  -- Between the brackets stands what `k` writes.
  container-Reaches :
      (b : Bool) (body : Bytes) (k : Writer → Status × Writer)
      → ((w : Writer) (t : Bytes) (ss : List Slot) (root : Bool)
          → IsAt w (page t (slot b false false ∷ ss) root)
          → length ss < length t
          → Room (t ++ body)
          → (u' : Bool) × Reaches (k w) (page (t ++ body) (slot b u' false ∷ ss) root))
      → (w : Writer) (t : Bytes) (ss : List Slot) (root : Bool) → IsAt w (page t ss root)
      → accepts ss root ≡ true
      → length ss ≤ length t
      → Room (t ++ (lead ss ++ (opening b ++ (body ++ closing b))))
      → Reaches
          (begin_container grants b w >>= k >>= end_container grants b)
          (settle (page (t ++ (lead ss ++ (opening b ++ (body ++ closing b)))) ss root))
  container-Reaches b body k f w t ss root a h l m =
      let t1 = t ++ (lead ss ++ opening b) in
      let e : t ++ (lead ss ++ (opening b ++ (body ++ closing b))) ≡ (t1 ++ body) ++ closing b =
        simp append_assoc refl in
      let room : Room ((t1 ++ body) ++ closing b) = subst Room e m in
      let room2 : Room (t1 ++ body) = omega (arith, length-append (t1 ++ body) (closing b)) in
      let opened =
        begin_container-Reaches grants plenty b w t ss root a h l
          (omega (arith, length-append t1 body)) in
      let filling =
        f (begin_container grants b w).1 t1 (filled ss) (settled ss root) opened.1
          (omega (
            arith,
            length-filled ss,
            length-append t (lead ss ++ opening b),
            length-append (lead ss) (opening b),
          ))
          room2 in
      rw (e, ← settle_twice ((t1 ++ body) ++ closing b) ss root)
        (bind-Reaches (begin_container grants b w >>= k) (end_container grants b) _ _
          (bind_at (begin_container grants b w) k _ _ opened filling.1)
          λ v c.
            end_container-Reaches grants plenty b filling.0 v (t1 ++ body) (filled ss)
              (settled ss root) c room)

  items_cons : (v : Value N) (vs : Items N) → WritesAny v → WritesSome vs → WritesSome (cons v vs)
  unfolding write_value render
  items_cons v vs f k u w t ss root a l m =
      let body = render format v in
      let rest = render_items format false vs in
      let e : t ++ (comma (not u) ++ (body ++ rest)) ≡ (t ++ (comma (not u) ++ body)) ++ rest =
        simp append_assoc refl in
      let room : Room ((t ++ (comma (not u) ++ body)) ++ rest) = subst Room e m in
      let first =
        f w t (slot false u false ∷ ss) root a refl l
          (omega (arith, length-append (t ++ (comma (not u) ++ body)) rest)) in
      let next =
        k true (write_value format finite grants v w).1 (t ++ (comma (not u) ++ body)) ss root
          first.1 (omega (arith, length-append t (comma (not u) ++ body))) room in
      (
        next.0,
        retext e (
            bind_at (write_value format finite grants v w) (write_items format finite grants vs) _ _
              first next.1),
      )

  members_member :
      (key : Bytes) (v : Value N) (ms : Members N)
      → WritesAny v
      → WritesAll ms
      → WritesAll (member key v ms)
  unfolding write_value render
  members_member key v ms f k u w t ss root a l m =
      let name = (comma (not u) ++ quoted key) ++ (b':' ∷ []) in
      let body = render format v in
      let rest = render_members format false ms in
      let e : t ++ (comma (not u) ++ (quoted key ++ ((b':' ∷ []) ++ (body ++ rest))))
          ≡ ((t ++ name) ++ body) ++ rest =
        simp append_assoc refl in
      let room : Room (((t ++ name) ++ body) ++ rest) = subst Room e m in
      let room2 : Room ((t ++ name) ++ body) =
        omega (arith, length-append ((t ++ name) ++ body) rest) in
      let named =
        write_object_key-Reaches grants plenty key u w t ss root a
          (omega (arith, length-append (t ++ name) body)) in
      let after : Writer = (write_object_key grants key w).1 in
      let long : length (slot true u true ∷ ss) ≤ length (t ++ name) =
        omega (arith, length-append t name) in
      let first = f after (t ++ name) (slot true u true ∷ ss) root named.1 refl long room2 in
      let both =
        bind_at (write_object_key grants key w) (write_value format finite grants v) _ _ named
          first in
      let next =
        k true (write_object_key grants key w >>= write_value format finite grants v).1
          ((t ++ name) ++ body) ss root both.1 (omega (arith, length-append (t ++ name) body))
          room in
      (
        next.0,
        retext e (
            bind_at (write_object_key grants key w >>= write_value format finite grants v)
              (write_members format finite grants ms) _ _ both next.1),
      )

  write_value-Writes : (v : Value N) → Writes v
  unfolding write_value render write_null write_bool write_string AllNumbers
  write_value-Writes v = elim v as Writes WritesItems WritesMembers [
    | null ↦ λ c w t ss root a h l.
        scalar-Reaches (codes "null") _ (append_bytes-Reaches grants plenty (codes "null")) w t ss
          root a h
    | boolean b ↦ λ c w t ss root a h l.
        scalar-Reaches (if b then codes "true" else codes "false") _
          (append_bytes-Reaches grants plenty (if b then codes "true" else codes "false")) w t ss
          root a h
    | number x ↦ λ c w t ss root a h l m. number-Reaches x c w t ss root a h m
    | string s ↦ λ c w t ss root a h l.
        scalar-Reaches (quoted s) _ (append_escaped_string-Reaches grants plenty s) w t ss root a h
    | array (vs → ih) ↦ λ c w t ss root a h l m.
        container-Reaches false (render_items format true vs) (write_items format finite grants vs)
          (ih c false) w t ss root a h l m
    | object (ms → ih) ↦ λ c w t ss root a h l m.
        container-Reaches true (render_members format true ms)
          (write_members format finite grants ms) (ih c false) w t ss root a h l m
    | nil ↦ λ c u w t ss root a l m. (u, (refl, unchanged a))
    | cons (v → ih) (vs → ihs) ↦
        λ c u w t ss root a l m. items_cons v vs (ih c.0) (ihs c.1) u w t ss root a l m
    | end ↦ λ c u w t ss root a l m. (u, (refl, unchanged a))
    | member key (v → ih) (ms → ihs) ↦
        λ c u w t ss root a l m. members_member key v ms (ih c.0) (ihs c.1) u w t ss root a l m
  ]

  -- With memory at hand, where "%.17g" prints fewer than 64 bytes: the calls of a new writer for
  -- a value of finite numbers whose text is short enough say OI_OK and leave exactly the text
  -- that the grammar of RFC 8259 gives the value, with commas between elements and members and
  -- the escapes of its table, and no failure; a number is what "%.17g" prints.
  pub write_value-render :
      (v : Value N)
      → AllNumbers (λ x. finite x ≡ true) v
      → Room (render format v)
      → let r = write_value format finite grants v create in
        (r.0 ≡ ok) × (r.1.contents ≡ render format v) × (r.1.failed ≡ false)
  unfolding create
  write_value-render v c h =
      let r = write_value-Writes v c create [] [] false create-IsAt refl (omega arith) h in
      (r.0, r.1.same_text, r.1.sound)
