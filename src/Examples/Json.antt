-- ===== src/Examples/Json.antt =====
-- {"a":{"b":12},"c":[true]} and its tokens.
use atx_sys.Common.{
  ◌>>=◌, arith, ◌≡◌, refl, List, [], ◌∷◌, ◌++◌, some, none, Bytes, codes, length, Result, ok, fault,
  bad_read, Option,
}
use atx_sys.Json.{
  Token, Tokens, JsmnValue, json_next, json_get_member, json_get_arr, json_delve, json_delve_value,
  object,
}
use atx_sys.Json.Layout.{
  Node, obj, arr, prim, no_members, member, no_nodes, element, layout, children,
}
use atx_sys.Json.Scan.{scan, json_next-scan}
use atx_sys.Json.Tree.{value_at, guide_of}
use atx_sys.Json.Delve.{Finds, json_delve-layout}
use atx_sys.Json.Ends.{EndsWithin, json_delve-EndsWithin}
use atx_sys.Json.Each.{json_for_each_obj, key_positions, first_key, json_for_each_obj-layout}
use atx_sys.Json.Arrays.{json_get_arr-layout, element_of}

abbrev doc : Bytes
doc = codes "{\"a\":{\"b\":12},\"c\":[true]}"

abbrev inner : Node
inner = obj 5 13 (member 7 8 (prim 10 12) no_members)

abbrev list : Node
list = arr 18 24 (element (prim 19 23) no_nodes)

abbrev tree : Node
tree = obj 0 25 (member 2 3 inner (member 15 16 list no_members))

abbrev keys : List Bytes
keys = codes "a" ∷ codes "b" ∷ []

json_delve_runs :
    json_delve_value doc (layout tree) (codes ".a.b")
    ≡ ok (some (record { p = codes "12},\"c\":[true]}"; len = 2 }))
unfolding json_delve_value json_delve json_get_member atx_sys.Json.strcspn_dot atx_sys.Json.read
    atx_sys.Json.find_member children atx_sys.Json.json_tok_streq atx_sys.Common.strncmp_same
    atx_sys.Json.json_tok_value
json_delve_runs = refl

json_next-scan_example :
    json_next (layout inner ++ layout list) ≡ scan 1 (layout inner ++ layout list)
json_next-scan_example = json_next-scan (layout inner ++ layout list)

json_delve-layout_example :
    Finds (value_at doc tree keys) (json_delve doc (layout tree ++ []) (guide_of keys))
json_delve-layout_example = json_delve-layout doc tree [] keys (omega arith)

json_get_arr_example : Finds (element_of list 0) (json_get_arr (layout list ++ []) 0)
json_get_arr_example = json_get_arr-layout list 0 []

json_delve-EndsWithin_example :
    EndsWithin (length (layout inner)) (json_delve doc (layout inner) (codes ".b..c"))
json_delve-EndsWithin_example = json_delve-EndsWithin doc (layout inner) (codes ".b..c")

json_for_each_obj-layout_example :
    (json_for_each_obj (layout tree ++ [])
      ≡ ok (key_positions (member 2 3 inner (member 15 16 list no_members)) []))
    × (json_get_member doc (layout tree ++ []) (codes "c")
        ≡ (json_for_each_obj (layout tree ++ []) >>= first_key doc (codes "c")))
json_for_each_obj-layout_example =
    json_for_each_obj-layout doc (codes "c") 0 25 (member 2 3 inner (member 15 16 list no_members))
      []
