-- ===== src/Json/Delve.antt =====
-- `json_get_member` and `json_delve` on the tokens of a document are the lookups of `Tree`, and
-- `json_delve` ends on any tokens and any guide.
use atx_sys.Common.{
  Result, ok, ◌>>=◌, ℕ, zero, suc, ◌-◌, ◌≤◌, ◌<◌, ◌≡◌, refl, inl, inr, Option, none, some, List,
  ◌++◌, ◌∷◌, [], append_assoc, arith, length, length-append, drop, take-append_self,
  drop-append_self, Bytes, IsText, strncmp_same-bytes_eq, ◌==◌, Bool-cases, ==_iff, lt→ltb,
}
use atx_sys.Json.{
  Tokens, read, json_tok_streq, find_member, json_get_member, strcspn_dot, or_null, delve_fuel,
  delve_step, json_delve, string,
}
use atx_sys.Json.Layout.{
  Node, Members, obj, arr, str, prim, no_members, member, count_members, children, layout_members,
  layout,
}
use atx_sys.Json.Next.{json_next-layout}
use atx_sys.Json.Tree.{reads, member_named, field_of, inside, value_at, IsName, AreKeys, guide_of}

-- The walk answers as the lookup on the document does: it points at the value's tokens.
abbrev pub Finds : Option Node → Result (Option Tokens) → Type 0
Finds none r = r ≡ ok none
Finds (some v) r = (post : Tokens) × (r ≡ ok (some (layout v ++ post)))

pub json_tok_streq-reads :
    (buf label : Bytes) (s e n : ℕ)
    → IsText label
    → json_tok_streq buf (record { type = string; start = s; end = e; size = n }) label
      ≡ reads buf s e label
unfolding json_tok_streq
json_tok_streq-reads buf label s e n h = elim (Bool-cases (e - s == length label)) [
  | inl same ↦ rw (same, (==_iff _ _).0 same) (strncmp_same-bytes_eq label (drop s buf) h)
  | inr other ↦ rw other
]

find_member-layout :
    (buf label : Bytes) (ms : Members) (post : Tokens)
    → IsText label
    → Finds
        (member_named buf label ms)
        (find_member buf label (count_members ms) (layout_members ms ++ post))
unfolding find_member layout_members children read
find_member-layout buf label no_members post h = refl
find_member-layout buf label (member s e v ms) post h = elim (Bool-cases (reads buf s e label)) [
  | inl here ↦
      rw (json_tok_streq-reads buf label s e 1 h, here) (layout_members ms ++ post, rw append_assoc)
  | inr there ↦
      rw
        (
          json_tok_streq-reads buf label s e 1 h,
          there,
          append_assoc,
          json_next-layout v (layout_members ms ++ post),
        )
        (find_member-layout buf label ms post h)
]

pub json_get_member-layout :
    (buf label : Bytes) (v : Node) (post : Tokens)
    → IsText label
    → Finds (field_of buf label v) (json_get_member buf (layout v ++ post) label)
unfolding json_get_member read children
json_get_member-layout buf label (obj s e ms) post h = find_member-layout buf label ms post h
json_get_member-layout buf label (arr s e vs) post h = refl
json_get_member-layout buf label (str s e) post h = refl
json_get_member-layout buf label (prim s e) post h = refl

strcspn_dot-append :
    (k : Bytes) (ks : List Bytes) → IsName k → strcspn_dot (k ++ guide_of ks) ≡ length k
unfolding strcspn_dot
strcspn_dot-append [] [] h = refl
strcspn_dot-append [] (j ∷ ks) h = refl
strcspn_dot-append (c ∷ k) ks h = ground (arith, strcspn_dot-append k ks)

IsName-IsText : (k : Bytes) → IsName k → IsText k
IsName-IsText [] h = tt
IsName-IsText (c ∷ k) h = (h.0, IsName-IsText k h.2)

delve_step-layout :
    (buf : Bytes) (v : Node) (post : Tokens) (k : Bytes)
    → IsName k
    → length k < 128
    → Finds (field_of buf k v) (delve_step buf (layout v ++ post) b'.' k)
unfolding delve_step read
delve_step-layout buf (obj s e ms) post k n l =
    rw (lt→ltb _ _ l) (json_get_member-layout buf k (obj s e ms) post (IsName-IsText k n))
delve_step-layout buf (arr s e vs) post k n l = rw (lt→ltb _ _ l)
delve_step-layout buf (str s e) post k n l = rw (lt→ltb _ _ l)
delve_step-layout buf (prim s e) post k n l = rw (lt→ltb _ _ l)

Finds-inside :
    (g : Node → Option Node) (o : Option Node) (r : Result (Option Tokens))
    (k : Tokens → Result (Option Tokens))
    → Finds o r
    → ((w : Node) (post : Tokens) → Finds (g w) (k (layout w ++ post)))
    → Finds (inside g o) (r >>= or_null k)
Finds-inside g none r k h next = rw h
Finds-inside g (some w) r k h next = rw h.1 (next w h.0)

delve_fuel-layout :
    (ks : List Bytes) (f : ℕ) (buf : Bytes) (v : Node) (post : Tokens)
    → AreKeys ks
    → length (guide_of ks) ≤ f
    → Finds (value_at buf v ks) (delve_fuel f buf (layout v ++ post) (guide_of ks))
unfolding delve_fuel value_at
delve_fuel-layout [] f buf v post h le = (post, refl)
delve_fuel-layout (k ∷ ks) zero buf v post h le = absurd (omega arith)
delve_fuel-layout (k ∷ ks) (suc f) buf v post h le =
    rw
      (
        strcspn_dot-append k ks h.0,
        take-append_self k (guide_of ks),
        drop-append_self k (guide_of ks),
      )
      (Finds-inside (λ w. value_at buf w ks) (field_of buf k v) _ _
        (delve_step-layout buf v post k h.0 h.1)
        λ w post'.
          delve_fuel-layout ks f buf w post' h.2 (omega (arith, length-append {0} k (guide_of ks))))

-- On the tokens of any document, whatever tokens follow them, json_delve along the guide of a path
-- of keys finds the token of the value at that path, or NULL where there is none. The keys have no
-- dot and no NUL, and fewer than 128 bytes each.
pub json_delve-layout :
    (buf : Bytes) (v : Node) (post : Tokens) (ks : List Bytes)
    → AreKeys ks
    → Finds (value_at buf v ks) (json_delve buf (layout v ++ post) (guide_of ks))
unfolding json_delve
json_delve-layout buf v post ks h = delve_fuel-layout ks _ buf v post h (omega arith)
