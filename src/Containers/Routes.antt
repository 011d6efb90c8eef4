-- ===== src/Containers/Routes.antt =====
-- The map of the routes, as http.c uses it: the interface RouteMap over a khash.
use atx_sys.Common.{
  ◌≡◌, refl, false, List, [], ◌∷◌, Option, none, some, if◌then◌else◌, Bytes, bytes_eq, is_negative,
  ok, Bool-cases, inl, inr,
}
use atx_sys.Http.Routes.{RouteMap, route_matches, check_paths}
use atx_sys.Containers.{Khash, map_create, map_add, map_get, map_entries, map_foreach, calls}
use atx_sys.Containers.Lookup.{map_get-entries}
use atx_sys.Containers.Update.{map_get-map_create, map_get-map_add}

-- `foreach_route_check_path`, with what its context has found so far.
unfoldable pub foreach_route_check_path {ℓ} : {R : Type ℓ} → Bytes → Bytes → R → Option R → Option R
foreach_route_check_path path test_path r (some found) = some found
foreach_route_check_path path test_path r none =
    if route_matches test_path path then some r else none

module _ {R : Type 0} (path : Bytes) where
  calls-some :
      (r : R) (es : List (Bytes × R)) → calls (foreach_route_check_path path) (some r) es ≡ some r
  unfolding foreach_route_check_path
  calls-some r [] = refl
  calls-some r (e ∷ es) = calls-some r es

  calls-check_paths :
      (es : List (Bytes × R)) → calls (foreach_route_check_path path) none es ≡ check_paths path es
  unfolding foreach_route_check_path check_paths
  calls-check_paths [] = refl
  calls-check_paths ((t, r) ∷ es) = elim (Bool-cases (route_matches t path)) [
    | inl hit ↦ rw hit (calls-some r es)
    | inr miss ↦ rw miss (calls-check_paths es)
  ]

module _ {R : Type 0} (k : Khash R) where
  open k use {Hash, put, IsTable, init, init-IsTable, put-IsTable, set_val, set_val-IsTable}

  pub map_create-IsTable : IsTable (map_create k)
  unfolding map_create
  map_create-IsTable = init-IsTable

  -- The iteration with the callback of http.c finds what `check_paths` finds in the entries.
  pub map_foreach-check_paths :
      (h : Hash) (path : Bytes)
      → map_foreach k h (foreach_route_check_path path) none ≡ check_paths path (map_entries k h)
  unfolding map_foreach
  map_foreach-check_paths h path = calls-check_paths path (map_entries k h)

  -- kh_put fails only when memory runs out.
  module _ (room : (h : Hash) (name : Bytes) → is_negative (put h name).2 ≡ false) where
    abbrev pub Table : Type 0
    Table = (h : Hash) × IsTable h

    abbrev pub added : Hash → Bytes → R → Hash
    added h name r = set_val (put h name).0 (put h name).1 r

    pub map_add-added : (h : Hash) (name : Bytes) (r : R) → map_add k h name r ≡ ok (added h name r)
    unfolding map_add
    map_add-added h name r = rw (room h name)

    pub get-added :
        (h : Hash) (t : IsTable h) (name j : Bytes) (r : R)
        → map_get k (added h name r) j ≡ (if bytes_eq name j then some r else map_get k h j)
    get-added h t name j r =
        (map_get-map_add k h (added h name r) name j r t (map_add-added h name r)).1

    -- The tables of khash, with the functions that MAP_INIT generates, are a map of routes.
    abbrev pub routes_map : RouteMap R
    routes_map = record {
      Map = Table;
      empty = (map_create k, map_create-IsTable);
      get = λ m j. map_get k m.0 j;
      entries = λ m. map_entries k m.0;
      add = λ m name r. (added m.0 name r, set_val-IsTable _ _ r (put-IsTable m.0 name m.1));
      get-empty = map_get-map_create k;
      get-entries = λ m j. map_get-entries k m.0 j m.1;
      get-add = λ m name j r. get-added m.0 m.1 name j r;
    }
