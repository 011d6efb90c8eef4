-- ===== src/Json/Tree.antt =====
-- What a lookup means on the document itself, with no token array in sight.
use atx_sys.Common.{
  ℕ, ◌-◌, ◌<◌, Bool, ◌&&◌, Option, none, some, List, [], ◌∷◌, ◌++◌, length, take, drop, ◌==◌,
  if◌then◌else◌, Bytes, bytes_eq, ◌≢◌,
}
use atx_sys.Json.Layout.{Node, Members, obj, arr, str, prim, no_members, member}

-- The span from s to e of the buffer reads the label.
abbrev pub reads : Bytes → ℕ → ℕ → Bytes → Bool
reads buf s e label = (e - s == length label) && bytes_eq (take (e - s) (drop s buf)) label

-- The value of the first member whose key reads the label.
abbrev pub member_named : Bytes → Bytes → Members → Option Node
member_named buf label no_members = none
member_named buf label (member s e v ms) =
    if reads buf s e label then some v else member_named buf label ms

abbrev pub field_of : Bytes → Bytes → Node → Option Node
field_of buf label (obj s e ms) = member_named buf label ms
field_of buf label (arr s e vs) = none
field_of buf label (str s e) = none
field_of buf label (prim s e) = none

abbrev pub inside : (Node → Option Node) → Option Node → Option Node
inside f none = none
inside f (some v) = f v

unfoldable pub value_at : Bytes → Node → List Bytes → Option Node
value_at buf v [] = some v
value_at buf v (k ∷ ks) = inside (λ w. value_at buf w ks) (field_of buf k v)

-- A key that a guide can name: no NUL, no dot.
abbrev pub IsName : Bytes → Type 0
IsName [] = Unit {0}
IsName (c ∷ s) = (0 < c) × (c ≢ b'.') × IsName s

-- The keys that `json_delve` can copy into its buffer of 128 bytes.
abbrev pub AreKeys : List Bytes → Type 0
AreKeys [] = Unit {0}
AreKeys (k ∷ ks) = IsName k × (length k < 128) × AreKeys ks

-- ".a.b" for the keys a and b.
abbrev pub guide_of : List Bytes → Bytes
guide_of [] = []
guide_of (k ∷ ks) = b'.' ∷ (k ++ guide_of ks)
