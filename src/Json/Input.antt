-- ===== src/Json/Input.antt =====
-- src/json_parse.c: a value's text is read as the value.
use oi_c.Prelude.{
  ℕ, suc, ◌+◌, ◌<◌, ◌≡◌, refl, ap, ◌∙◌, subst, Bool, true, false, List, [], ◌∷◌, ◌++◌, append_assoc,
  length, Bytes, some, arith,
}
use oi_c.Json.Attach.{Plenty, block_size, Takes, many}
use oi_c.Json.Brackets.{in_array, in_object, open_array-Goes, open_object-Goes}
use oi_c.Json.Feed.{feed_bytes}
use oi_c.Json.Members.{
  At, awaits, behind_comma, comma-Goes, close_array-Goes, close_object-Goes, key-Goes, colon-Goes,
}
use oi_c.Json.Numbers.{finalize_number}
use oi_c.Json.Numerals.{Reads, number-Goes}
use oi_c.Json.Parser.{finish, finish_in, finish_number, parser_root}
use oi_c.Json.Starts.{takes_value, null-Goes, boolean-Goes, string-Goes}
use oi_c.Json.State.{
  Memory, between, done, array_of, object_of, member_value, Frame, Parser, create,
}
use oi_c.Json.Steps.{Ready, Attached, Goes, append-Goes, onward, Rests, settled, pending}
use oi_c.Json.Text.{Holds}
use oi_c.Json.Value.{
  Value, Items, Members, null, boolean, number, string, array, object, nil, cons, end, member,
  count, push, append,
}
use oi_c.Json.Walk.{render, render_items, render_members, quoted, comma}
use oi_c.Status.{ok}

module _ {N : Type 0} where
  -- The elements pushed one by one, and the members appended.
  unfoldable pub push_all : Items N → Items N → Items N
  push_all vs nil = vs
  push_all vs (cons w ws) = push_all (push vs w) ws

  unfoldable pub append_all : Members N → Members N → Members N
  append_all ms end = ms
  append_all ms (member key v rest) = append_all (append ms key v) rest

  count-push : (vs : Items N) (v : Value N) → count (push vs v) ≡ suc (count vs)
  unfolding count push
  count-push nil v = refl
  count-push (cons w ws) v = ap suc (count-push ws v)

  cons_all : (w : Value N) (vs ws : Items N) → push_all (cons w vs) ws ≡ cons w (push_all vs ws)
  unfolding push_all push
  cons_all w vs nil = refl
  cons_all w vs (cons v ws) = cons_all w (push vs v) ws

  push_all-nil : (ws : Items N) → push_all nil ws ≡ ws
  unfolding push_all push
  push_all-nil nil = refl
  push_all-nil (cons w ws) = cons_all w nil ws ∙ ap (cons w) (push_all-nil ws)

  member_all :
      (k : Bytes) (v : Value N) (ms ns : Members N)
      → append_all (member k v ms) ns ≡ member k v (append_all ms ns)
  unfolding append_all append
  member_all k v ms end = refl
  member_all k v ms (member key w ns) = member_all k v (append ms key w) ns

  append_all-end : (ns : Members N) → append_all end ns ≡ ns
  unfolding append_all append
  append_all-end end = refl
  append_all-end (member k v ns) = member_all k v end ns ∙ ap (member k v) (append_all-end ns)

-- What the parser has room for below `d` open containers: no more than 1000 of them, arrays of fewer than
-- 4096 elements, strings and keys of fewer than 65536 bytes, and numbers whose text `strtod` reads back.
unfoldable mutual
  pub Fits : {N : Type 0} → (N → Bytes) → (Bytes → N × ℕ) → ℕ → Value N → Type 0
  Fits format strtod d null = Unit
  Fits format strtod d (boolean b) = Unit
  Fits format strtod d (number x) = Reads strtod (format x) x
  Fits format strtod d (string s) = Holds s
  Fits format strtod d (array vs) =
      (d < 1000) × (count vs < many) × FitItems format strtod (suc d) vs
  Fits format strtod d (object ms) = (d < 1000) × FitMembers format strtod (suc d) ms

  pub FitItems : {N : Type 0} → (N → Bytes) → (Bytes → N × ℕ) → ℕ → Items N → Type 0
  FitItems format strtod d nil = Unit
  FitItems format strtod d (cons v vs) = Fits format strtod d v × FitItems format strtod d vs

  pub FitMembers : {N : Type 0} → (N → Bytes) → (Bytes → N × ℕ) → ℕ → Members N → Type 0
  FitMembers format strtod d end = Unit
  FitMembers format strtod d (member key v ms) =
      Holds key × Fits format strtod d v × FitMembers format strtod d ms

module _ {N : Type 0} (format : N → Bytes) (strtod : Bytes → N × ℕ) (grants : Memory → ℕ → Bool)
    (plenty : Plenty grants) where
  abbrev Gives : List (Frame N) → Value N → Parser N → Bytes → Type 0
  Gives fs v p text = Goes strtod grants p text (Rests strtod grants (Attached fs v))

  abbrev ReadsValue : Value N → Type 0
  ReadsValue v =
      (d : ℕ) (fs : List (Frame N)) (p : Parser N)
      → Fits format strtod d v
      → length fs ≡ d
      → Ready between fs p
      → takes_value fs ≡ true
      → Takes fs
      → Gives fs v p (render format v)

  abbrev ReadsItems : Items N → Type 0
  ReadsItems vs =
      (d : ℕ) (first : Bool) (before : Items N) (fs : List (Frame N)) (p : Parser N)
      → FitItems format strtod (suc d) vs
      → count before + count vs < many
      → length fs ≡ d
      → Takes fs
      → At strtod grants plenty first (in_array before (awaits first)) fs p
      → Goes strtod grants p (render_items format first vs ++ (b']' ∷ []))
          (Attached fs (array (push_all before vs)))

  abbrev ReadsMembers : Members N → Type 0
  ReadsMembers ms =
      (d : ℕ) (first : Bool) (before : Members N) (fs : List (Frame N)) (p : Parser N)
      → FitMembers format strtod (suc d) ms
      → length fs ≡ d
      → Takes fs
      → At strtod grants plenty first (in_object before [] (awaits first)) fs p
      → Goes strtod grants p (render_members format first ms ++ (b'}' ∷ []))
          (Attached fs (object (append_all before ms)))

  items_cons : (v : Value N) (vs : Items N) → ReadsValue v → ReadsItems vs → ReadsItems (cons v vs)
  unfolding Fits render count push_all
  items_cons v vs f g d first before fs p fit small l t a =
      let body = render format v in
      let rest = render_items format false vs ++ (b']' ∷ []) in
      let e : (comma first ++ (body ++ render_items format false vs)) ++ (b']' ∷ [])
          ≡ comma first ++ (body ++ rest) =
        simp append_assoc refl in
      rw e (
        append-Goes strtod grants p (comma first) (body ++ rest)
          (comma-Goes strtod grants plenty first (array_of before) fs p a)
          λ q b.
            append-Goes strtod grants q body rest
              (f (suc d) (in_array before (behind_comma first) ∷ fs) q fit.0 (ap suc l) b
                (opened first) (omega arith))
              λ r c.
                g d false (push before v) fs r fit.1 (omega (arith, count-push before v)) l t c)
    where
      opened : (b : Bool) → takes_value (in_array before (behind_comma b) ∷ fs) ≡ true
      opened true = refl
      opened false = refl

  members_member :
      (key : Bytes) (v : Value N) (ms : Members N)
      → ReadsValue v
      → ReadsMembers ms
      → ReadsMembers (member key v ms)
  unfolding Fits render append_all
  members_member key v ms f g d first before fs p fit l t a =
      let body = render format v in
      let rest = render_members format false ms ++ (b'}' ∷ []) in
      let e : (comma first
              ++ (quoted key ++ ((b':' ∷ []) ++ (body ++ render_members format false ms))))
            ++ (b'}' ∷ [])
          ≡ comma first ++ (quoted key ++ ((b':' ∷ []) ++ (body ++ rest))) =
        simp append_assoc refl in
      rw e (
        append-Goes strtod grants p (comma first) (quoted key ++ ((b':' ∷ []) ++ (body ++ rest)))
          (comma-Goes strtod grants plenty first (object_of before) fs p a)
          λ p1 a1.
            append-Goes strtod grants p1 (quoted key) ((b':' ∷ []) ++ (body ++ rest))
              (key-Goes strtod grants plenty first key before fs p1 fit.0 a1)
              λ p2 a2.
                append-Goes strtod grants p2 (b':' ∷ []) (body ++ rest)
                  (colon-Goes strtod grants plenty key before fs p2 a2)
                  λ p3 a3.
                    append-Goes strtod grants p3 body rest
                      (f (suc d) (in_object before key member_value ∷ fs) p3 fit.1 (ap suc l) a3
                        refl (let k : length key < block_size = omega (arith, fit.0) in k))
                      λ p4 a4. g d false (append before key v) fs p4 fit.2 l t a4)

  render-Gives : (v : Value N) → ReadsValue v
  unfolding Fits render count push_all append_all
  render-Gives v = elim v as ReadsValue ReadsItems ReadsMembers [
    | null ↦ λ d fs p fit l r o t.
        onward strtod grants (null-Goes strtod grants plenty fs p r o t) λ q. settled
    | boolean b ↦ λ d fs p fit l r o t.
        onward strtod grants (boolean-Goes strtod grants plenty b fs p r o t) λ q. settled
    | number x ↦ λ d fs p fit l r o t. number-Goes strtod grants plenty (format x) x fs p fit r o t
    | string s ↦ λ d fs p fit l r o t.
        onward strtod grants (string-Goes strtod grants plenty s fs p r o t fit) λ q. settled
    | array (vs → ih) ↦ λ d fs p fit l r o t.
        onward strtod grants
          (append-Goes strtod grants p (b'[' ∷ []) (render_items format true vs ++ (b']' ∷ []))
            (open_array-Goes strtod grants plenty fs p r o (omega arith))
            λ q a. ih d true nil fs q fit.2 (omega arith) l t a)
          λ q a. settled (subst (λ x. Attached fs (array x) q) (push_all-nil vs) a)
    | object (ms → ih) ↦ λ d fs p fit l r o t.
        onward strtod grants
          (append-Goes strtod grants p (b'{' ∷ []) (render_members format true ms ++ (b'}' ∷ []))
            (open_object-Goes strtod grants plenty fs p r o (omega arith))
            λ q a. ih d true end fs q fit.1 l t a)
          λ q a. settled (subst (λ x. Attached fs (object x) q) (append_all-end ms) a)
    | nil ↦ λ d first before fs p fit small l t a.
        close_array-Goes strtod grants plenty first before fs p t a
    | cons (v → ih) (vs → ihs) ↦ items_cons v vs ih ihs
    | end ↦ λ d first before fs p fit l t a.
        close_object-Goes strtod grants plenty first before fs p t a
    | member key (v → ih) (ms → ihs) ↦ members_member key v ms ih ihs
  ]

  rooted :
      {v : Value N} (p : Parser N)
      → p.state ≡ done
      → p.root ≡ some v
      → parser_root strtod grants p ≡ some v
  unfolding parser_root
  rooted p s r = simp (s, r) refl

  finish-root :
      (v : Value N) (p : Parser N)
      → Rests strtod grants (Attached [] v) p
      → let r = finish strtod grants p in (r.0 ≡ ok) × (parser_root strtod grants r.1 ≡ some v)
  unfolding finish finish_in finish_number parser_root
  finish-root v p (settled a) =
      let k : finish strtod grants p ≡ (ok, p) = simp a.0.in_state refl in
      (ap (λ x. x.0) k, ap (λ x. parser_root strtod grants x.1) k ∙ rooted p a.0.in_state a.1)
  finish-root v p (pending e f a) =
      let q = (finalize_number strtod grants p).1 in
      let k : finish strtod grants p ≡ (ok, q) = simp (e, f, a.0.in_state) refl in
      (ap (λ x. x.0) k, ap (λ x. parser_root strtod grants x.1) k ∙ rooted q a.0.in_state a.1)

  -- A value's text, fed to a new parser and finished, gives the value.
  pub finish-render :
      (v : Value N)
      → Fits format strtod 0 v
      → let r = feed_bytes strtod grants create (render format v) in
        let s = finish strtod grants r.1 in
        (r.0 ≡ ok) × (s.0 ≡ ok) × (parser_root strtod grants s.1 ≡ some v)
  unfolding create
  finish-render v fit =
      let g =
        render-Gives v 0 [] create fit refl
          (record { in_state = refl; stack = refl; positive = omega arith; sized = omega arith })
          refl tt in
      let h = finish-root v (feed_bytes strtod grants create (render format v)).1 g.there in
      (g.fine, h.0, h.1)
