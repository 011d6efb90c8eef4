-- ===== src/Json/Arrays.antt =====
-- `json_get_arr` on the tokens of a document.
use atx_sys.Common.{
  ℕ, zero, suc, ◌-◌, ◌≡◌, refl, ◌++◌, Option, none, some, false, ◌==◌, arith, append_assoc,
}
use atx_sys.Json.{Tokens, json_get_arr, find_element, read}
use atx_sys.Json.Layout.{
  Node, Nodes, obj, arr, str, prim, no_nodes, element, count_nodes, layout_nodes, children, layout,
}
use atx_sys.Json.Next.{json_next-layout}
use atx_sys.Json.Delve.{Finds}

abbrev pub nth_node : Nodes → ℕ → Option Node
nth_node no_nodes i = none
nth_node (element v vs) zero = some v
nth_node (element v vs) (suc i) = nth_node vs i

abbrev pub element_of : Node → ℕ → Option Node
element_of (arr s e vs) i = nth_node vs i
element_of (obj s e ms) i = none
element_of (str s e) i = none
element_of (prim s e) i = none

pub pred-suc : (i : ℕ) → suc i - 1 ≡ i
pred-suc i = omega arith

pub suc-eq-zero : (i : ℕ) → (suc i == 0) ≡ false
suc-eq-zero i = ground arith

find_element-layout :
    (vs : Nodes) (i : ℕ) (post : Tokens)
    → Finds (nth_node vs i) (find_element i (count_nodes vs) (layout_nodes vs ++ post))
unfolding find_element layout_nodes children
find_element-layout no_nodes i post = refl
find_element-layout (element v vs) zero post = (layout_nodes vs ++ post, rw append_assoc)
find_element-layout (element v vs) (suc i) post =
    rw (suc-eq-zero i, append_assoc, json_next-layout v (layout_nodes vs ++ post), pred-suc i)
      (find_element-layout vs i post)

-- On the tokens of any value, whatever tokens follow them, json_get_arr points at the element with
-- the index, and answers NULL behind the last element and for a value that is no array.
pub json_get_arr-layout :
    (v : Node) (i : ℕ) (post : Tokens) → Finds (element_of v i) (json_get_arr (layout v ++ post) i)
unfolding json_get_arr read children
json_get_arr-layout (arr s e vs) i post = find_element-layout vs i post
json_get_arr-layout (obj s e ms) i post = refl
json_get_arr-layout (str s e) i post = refl
json_get_arr-layout (prim s e) i post = refl
