-- ===== src/Json/Each.antt =====
-- The loops of json.h over the keys of an object and the elements of an array, and what the searches
-- of json.c find of what they visit.
use atx_sys.Common.{
  ℕ, zero, suc, ◌≡◌, refl, sym, ap, ◌∙◌, ◌++◌, List, [], ◌∷◌, append_assoc, Option, none, some,
  if◌then◌else◌, Bytes, Result, ok, ◌>>=◌,
}
use atx_sys.Json.{
  Tokens, read, succ_tok, json_next, json_tok_streq, find_member, json_get_member, find_element,
  json_get_arr,
}
use atx_sys.Json.Layout.{
  head_token, Members, Nodes, obj, arr, no_members, member, no_nodes, element, count_members,
  count_nodes, key_token, layout_members, layout_nodes, children, layout,
}
use atx_sys.Json.Arrays.{pred-suc, suc-eq-zero}
use atx_sys.Json.Next.{json_next-layout}

-- The tokens that the body of the loop is run at, from `t` with n keys left. The step to the next
-- key is made behind the last one too.
unfoldable pub each_key : ℕ → Tokens → Result (List Tokens)
each_key zero t = ok []
each_key (suc n) t = do next ← json_next (succ_tok t); rest ← each_key n next; ok (t ∷ rest)

unfoldable pub json_for_each_obj : Tokens → Result (List Tokens)
unfolding each_key
json_for_each_obj tok = do k ← read tok; each_key k.size (succ_tok tok)

unfoldable pub each_element : ℕ → Tokens → Result (List Tokens)
each_element zero t = ok []
each_element (suc n) t = do next ← json_next t; rest ← each_element n next; ok (t ∷ rest)

unfoldable pub json_for_each_arr : Tokens → Result (List Tokens)
unfolding each_element
json_for_each_arr tok = do k ← read tok; each_element k.size (succ_tok tok)

-- Where the keys of an object stand, and the elements of an array, with all that follows each.
abbrev pub key_positions : Members → Tokens → List Tokens
key_positions no_members post = []
key_positions (member s e v ms) post =
    (layout_members (member s e v ms) ++ post) ∷ key_positions ms post

abbrev pub element_positions : Nodes → Tokens → List Tokens
element_positions no_nodes post = []
element_positions (element v vs) post =
    (layout_nodes (element v vs) ++ post) ∷ element_positions vs post

-- The value behind the first key that reads the label.
abbrev pub first_key : Bytes → Bytes → List Tokens → Result (Option Tokens)
first_key buffer label [] = ok none
first_key buffer label (t ∷ ts) = do
  k ← read t
  if json_tok_streq buffer k label then ok (some (succ_tok t)) else first_key buffer label ts

abbrev pub nth : List Tokens → ℕ → Option Tokens
nth [] i = none
nth (t ∷ ts) zero = some t
nth (t ∷ ts) (suc i) = nth ts i

each_key-layout :
    (ms : Members) (post : Tokens)
    → each_key (count_members ms) (layout_members ms ++ post) ≡ ok (key_positions ms post)
unfolding each_key layout_members
each_key-layout no_members post = refl
each_key-layout (member s e v ms) post =
    rw (append_assoc, json_next-layout v (layout_members ms ++ post), each_key-layout ms post)

each_element-layout :
    (vs : Nodes) (post : Tokens)
    → each_element (count_nodes vs) (layout_nodes vs ++ post) ≡ ok (element_positions vs post)
unfolding each_element layout_nodes
each_element-layout no_nodes post = refl
each_element-layout (element v vs) post =
    rw (append_assoc, json_next-layout v (layout_nodes vs ++ post), each_element-layout vs post)

find_member-first_key :
    (buffer label : Bytes) (ms : Members) (post : Tokens)
    → find_member buffer label (count_members ms) (layout_members ms ++ post)
      ≡ first_key buffer label (key_positions ms post)
unfolding find_member layout_members read
find_member-first_key buffer label no_members post = refl
find_member-first_key buffer label (member s e v ms) post =
    rw (append_assoc, json_next-layout v (layout_members ms ++ post))
      (ap
        (λ r.
          if json_tok_streq buffer (key_token s e) label
          then ok (some (head_token v ∷ (children v ++ (layout_members ms ++ post))))
          else r)
        (find_member-first_key buffer label ms post))

-- On the tokens of any object, whatever tokens follow them, the loop over its keys runs its body
-- once at each key, in the order of the text, and json_get_member answers the token behind the
-- first of these keys that reads the label, or NULL where none does.
pub json_for_each_obj-layout :
    (buffer label : Bytes) (s e : ℕ) (ms : Members) (post : Tokens)
    → let tok = layout (obj s e ms) ++ post in
      (json_for_each_obj tok ≡ ok (key_positions ms post))
      × (json_get_member buffer tok label ≡ (json_for_each_obj tok >>= first_key buffer label))
unfolding json_for_each_obj json_get_member read children
json_for_each_obj-layout buffer label s e ms post =
    let each = each_key-layout ms post in
    (
      each,
      find_member-first_key buffer label ms post
          ∙ ap (λ r. r >>= first_key buffer label) (sym each),
    )

find_element-nth :
    (vs : Nodes) (i : ℕ) (post : Tokens)
    → find_element i (count_nodes vs) (layout_nodes vs ++ post)
      ≡ ok (nth (element_positions vs post) i)
unfolding find_element layout_nodes
find_element-nth no_nodes i post = refl
find_element-nth (element v vs) zero post = refl
find_element-nth (element v vs) (suc i) post =
    rw (suc-eq-zero i, append_assoc, json_next-layout v (layout_nodes vs ++ post), pred-suc i)
      (find_element-nth vs i post)

-- The same for the loop over the elements of an array, with json_get_arr and an index.
pub json_for_each_arr-layout :
    (i s e : ℕ) (vs : Nodes) (post : Tokens)
    → let tok = layout (arr s e vs) ++ post in
      (json_for_each_arr tok ≡ ok (element_positions vs post))
      × (json_get_arr tok i ≡ (json_for_each_arr tok >>= λ ts. ok (nth ts i)))
unfolding json_for_each_arr json_get_arr read children
json_for_each_arr-layout i s e vs post =
    let each = each_element-layout vs post in
    (each, find_element-nth vs i post ∙ ap (λ r. r >>= λ ts. ok (nth ts i)) (sym each))
