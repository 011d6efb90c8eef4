-- ===== src/Examples/Containers.antt =====
-- A table of two routes, and a third that is added to it or removed.
use mathlib.Core.List.{Mem}
use atx_sys.Common.{
  arith, ◌≡◌, ◌≢◌, refl, false, ℕ, [], ◌∷◌, ◌++◌, none, some, Bytes, codes, ok, bytes_eq,
  if◌then◌else◌,
}
use atx_sys.Http.Routes.{lookup}
use atx_sys.Containers.{map_add, map_remove, map_get, map_entries, map_destroy}
use atx_sys.Containers.Lookup.{map_get-entries}
use atx_sys.Containers.Update.{the_node, map_get-map_add, map_get-map_remove}
use atx_sys.Containers.Free.{map_destroy-map_add}
use atx_sys.Containers.Slots.{Slots, slot, find, set_slot, put_slot, AreDistinct}
use atx_sys.Containers.Slots.Table.{slots}

abbrev store : Slots ℕ
store = some (codes "/a", 1) ∷ none ∷ some (codes "/files/...", 2) ∷ []

abbrev grown : Slots ℕ
grown = store ++ some (codes "/b", 7) ∷ []

store-AreDistinct : AreDistinct store
unfolding find bytes_eq
store-AreDistinct = (refl, (refl, tt))

adds : map_add (slots 0) store (codes "/b") 7 ≡ ok grown
unfolding map_add put_slot find set_slot bytes_eq
adds = refl

map_get-entries_example :
    map_get (slots 0) store (codes "/files/...")
    ≡ lookup (codes "/files/...") (map_entries (slots 0) store)
map_get-entries_example = map_get-entries (slots 0) store (codes "/files/...") store-AreDistinct

map_get-map_add_example :
    AreDistinct grown
    × (map_get (slots 0) grown (codes "/a") ≡ (
        if bytes_eq (codes "/b") (codes "/a")
        then some 7
        else map_get (slots 0) store (codes "/a")))
map_get-map_add_example =
    map_get-map_add (slots 0) store grown (codes "/b") (codes "/a") 7 store-AreDistinct adds

map_get-map_remove_example :
    AreDistinct (map_remove (slots 0) store (codes "/a")).0
    × (map_get (slots 0) (map_remove (slots 0) store (codes "/a")).0 (codes "/files/...") ≡ (
        if bytes_eq (codes "/a") (codes "/files/...")
        then none
        else map_get (slots 0) store (codes "/files/...")))
    × ((map_remove (slots 0) store (codes "/a")).1
        ≡ the_node (map_get (slots 0) store (codes "/a")))
map_get-map_remove_example =
    map_get-map_remove (slots 0) store (codes "/a") (codes "/files/...") store-AreDistinct

abbrev one : Slots ℕ
one = some (codes "/a", 1) ∷ []

abbrev replaced : Slots ℕ
replaced = some (codes "/a", 2) ∷ []

one-AreDistinct : AreDistinct one
unfolding find
one-AreDistinct = (refl, tt)

has_one : map_get (slots 0) one (codes "/a") ≡ some 1
unfolding map_get find slot bytes_eq
has_one = refl

no_other : (j : Bytes) → bytes_eq (codes "/a") j ≡ false → map_get (slots 0) one j ≢ some 1
unfolding map_get find slot
no_other j h = rw h (λ e. cc)

replaces : map_add (slots 0) one (codes "/a") 2 ≡ ok replaced
unfolding map_add put_slot find set_slot bytes_eq
replaces = refl

map_destroy-map_add_example : ¬ Mem 1 (map_destroy (slots 0) replaced)
map_destroy-map_add_example =
    map_destroy-map_add (slots 0) one replaced (codes "/a") 1 2 one-AreDistinct has_one no_other
      (omega arith) replaces
