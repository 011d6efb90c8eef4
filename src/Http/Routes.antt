-- ===== src/Http/Routes.antt =====
-- The routes of the server: which handler a path reaches.
--
-- The map of the routes is klib's hash table behind the macros of containers.h. It is an interface: a
-- lookup, the entries in the order of its iteration, and an insertion, with their documented laws.
pub mod Resolve
pub mod Order
use atx_sys.Common.{
  ℕ, ◌-◌, ◌≡◌, Bool, true, false, ◌&&◌, List, [], ◌∷◌, Option, none, some, length, take, drop, ltb,
  leb, not, if◌then◌else◌, Bytes, codes, bytes_eq, print_at_most, Result, ok, fault, failed_assert,
}

-- The first entry with the key.
abbrev pub lookup {ℓ} : {R : Type ℓ} → Bytes → List (Bytes × R) → Option R
lookup k [] = none
lookup k ((j, r) ∷ m) = if bytes_eq j k then some r else lookup k m

pub record RouteMap (R : Type 0) : Type 1 where
  pub Map : Type 0
  pub empty : Map
  pub get : Map → Bytes → Option R
  pub entries : Map → List (Bytes × R)
  pub add : Map → Bytes → R → Map
  pub get-empty : (k : Bytes) → get empty k ≡ none
  pub get-entries : (m : Map) (k : Bytes) → get m k ≡ lookup k (entries m)
  pub get-add :
      (m : Map) (k j : Bytes) (r : R)
      → get (add m k r) j ≡ (if bytes_eq k j then some r else get m j)

-- The test of `foreach_route_check_path`.
unfoldable pub route_matches : Bytes → Bytes → Bool
route_matches test_path path =
    let plen = length path in
    let tlen = length test_path in
    leb 4 tlen
    && (bytes_eq (take 4 (drop (tlen - 4) test_path)) (codes "/...")
        && (ltb tlen plen && bytes_eq (take (tlen - 4) test_path) (take (tlen - 4) path)))

-- The first entry of the iteration that matches; once one is found the others are passed over.
unfoldable pub check_paths {ℓ} : {R : Type ℓ} → Bytes → List (Bytes × R) → Option R
check_paths path [] = none
check_paths path ((test_path, r) ∷ m) =
    if route_matches test_path path then some r else check_paths path m

abbrev pub or_else {ℓ} : {A : Type ℓ} → Option A → Option A → Option A
or_else none b = b
or_else (some a) b = some a

module _ {R : Type 0} (ops : RouteMap R) where
  open ops use {Map, get, entries, add}

  -- The uri is a pointer and a length; the copy of it ends at a NUL.
  unfoldable pub resolve_route : Map → Bytes → Result (Option R)
  resolve_route routes uri =
      let path = print_at_most (length uri) uri in
      if not (ltb (length uri) 128)
      then fault failed_assert
      else ok (or_else (get routes path) (check_paths path (entries routes)))

  unfoldable pub http_use : Map → Bytes → R → Map
  http_use routes path route = add routes path route
