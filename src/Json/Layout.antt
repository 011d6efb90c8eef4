-- ===== src/Json/Layout.antt =====
-- The tokens that the tokenizer writes for a document: each value is followed by its children in
-- the order of the text; an object counts its keys, and a key counts its one value.
use atx_sys.Common.{ℕ, zero, suc, ◌∷◌, ◌++◌, []}
use atx_sys.Json.{Token, Tokens, object, array, string, primitive}

mutual
  pub data Node : Type 0 where
    obj : ℕ → ℕ → Members → Node
    arr : ℕ → ℕ → Nodes → Node
    str : ℕ → ℕ → Node
    prim : ℕ → ℕ → Node

  pub data Members : Type 0 where
    no_members : Members
    member : ℕ → ℕ → Node → Members → Members

  pub data Nodes : Type 0 where
    no_nodes : Nodes
    element : Node → Nodes → Nodes

abbrev pub count_members : Members → ℕ
count_members no_members = zero
count_members (member s e v ms) = suc (count_members ms)

abbrev pub count_nodes : Nodes → ℕ
count_nodes no_nodes = zero
count_nodes (element v vs) = suc (count_nodes vs)

abbrev pub key_token : ℕ → ℕ → Token
key_token s e = record { type = string; start = s; end = e; size = 1 }

-- The first token of a value.
abbrev pub head_token : Node → Token
head_token (obj s e ms) = record { type = object; start = s; end = e; size = count_members ms }
head_token (arr s e vs) = record { type = array; start = s; end = e; size = count_nodes vs }
head_token (str s e) = record { type = string; start = s; end = e; size = 0 }
head_token (prim s e) = record { type = primitive; start = s; end = e; size = 0 }

unfoldable mutual
  pub children : Node → Tokens
  children (obj s e ms) = layout_members ms
  children (arr s e vs) = layout_nodes vs
  children (str s e) = []
  children (prim s e) = []

  pub layout_members : Members → Tokens
  layout_members no_members = []
  layout_members (member s e v ms) =
      key_token s e ∷ (head_token v ∷ children v ++ layout_members ms)

  pub layout_nodes : Nodes → Tokens
  layout_nodes no_nodes = []
  layout_nodes (element v vs) = head_token v ∷ children v ++ layout_nodes vs

abbrev pub layout : Node → Tokens
layout v = head_token v ∷ children v
