-- ===== src/Http/Routes/Resolve.antt =====
-- What `resolve_route` answers.
use mathlib.Core.Bool.{false≢true}
use atx_sys.Common.{
  Option-cases, le→ltb, ◌+◌, ◌-◌, ◌≤◌, ◌<◌, ◌≡◌, sym, ap, ◌∙◌, ◌⊎◌, inl, inr, true, List, [], ◌∷◌,
  ◌++◌, Option, none, some, length, length-append, take, drop, append-nil, ltb, leb, lt→ltb, Bytes,
  codes, IsText, bytes_eq, bytes_eq_iff, bytes_eq_refl, print_at_most, print_at_most_whole, Result,
  ok, fault, failed_assert, Bool-cases, arith, take-append_self, drop-append_self, take-append-drop,
  length-drop, ltb→lt, leb→le, take-all,
}
use atx_sys.Http.Routes.{RouteMap, route_matches, check_paths, resolve_route, http_use, lookup}

-- The path goes more than four bytes past a base, and the route's path is that base with "/...".
abbrev pub Covers : Bytes → Bytes → Type 0
Covers test path =
    (base : Bytes) × (rest : Bytes) × (test ≡ base ++ codes "/...")
    × (path ≡ base ++ rest)
    × (4 < length rest)

Covers→route_matches : (test path : Bytes) → Covers test path → route_matches test path ≡ true
unfolding route_matches
Covers→route_matches test path (base, rest, e, f, h) =
    let size : length (base ++ codes "/...") ≡ length base + 4 =
      length-append base (codes "/...") in
    let start : length base + 4 - 4 ≡ length base = omega arith in
    let longer : ltb (length base + 4) (length (base ++ rest)) ≡ true =
      lt→ltb _ _ (omega (arith, length-append {0} base rest)) in
    let four : leb 4 (length base + 4) ≡ true = ground arith in
    rw
      (
        e,
        f,
        size,
        start,
        longer,
        four,
        drop-append_self base (codes "/..."),
        take-append_self base (codes "/..."),
        take-append_self base rest,
      )
      (unfold bytes_eq in bytes_eq_refl base)

route_matches→Covers : (test path : Bytes) → route_matches test path ≡ true → Covers test path
unfolding route_matches
route_matches→Covers test path h =
    let n = length test - 4 in
    let parts : (leb 4 (length test) ≡ true)
        × (bytes_eq (take 4 (drop n test)) (codes "/...") ≡ true)
        × (ltb (length test) (length path) ≡ true)
        × (bytes_eq (take n test) (take n path) ≡ true) =
      ground arith in
    let (four, dots, longer, same) = parts in
    let ending : drop n test ≡ codes "/..." =
      sym (take-all 4 (drop n test) (omega (arith, leb→le _ _ four, length-drop {0} n test)))
      ∙ (bytes_eq_iff _ _).0 dots in
    (
      take n test,
      drop n path,
      sym (take-append-drop n test) ∙ ap (λ t. take n test ++ t) ending,
      sym (take-append-drop n path) ∙ ap (λ t. t ++ drop n path) (sym ((bytes_eq_iff _ _).0 same)),
      omega (arith, leb→le _ _ four, ltb→lt _ _ longer, length-drop {0} n path),
    )

-- The route of the first entry whose path covers this path, or none if no entry does.
pub data FirstCovering {R : Type 0} (path : Bytes) : List (Bytes × R) → Option R → Type 0 where
  no_entry : FirstCovering path [] none
  covering :
      {t : Bytes} {r : R} {m : List (Bytes × R)}
      → Covers t path
      → FirstCovering path ((t, r) ∷ m) (some r)
  passed :
      {t : Bytes} {r : R} {m : List (Bytes × R)} {o : Option R}
      → ¬ Covers t path
      → FirstCovering path m o
      → FirstCovering path ((t, r) ∷ m) o

check_paths-FirstCovering :
    {R : Type 0} (path : Bytes) (m : List (Bytes × R)) → FirstCovering path m (check_paths path m)
unfolding check_paths
check_paths-FirstCovering path [] = no_entry
check_paths-FirstCovering path ((t, r) ∷ m) = elim (Bool-cases (route_matches t path)) [
  | inl hit ↦ rw hit (covering (route_matches→Covers t path hit))
  | inr miss ↦ rw miss (
      passed (λ c. false≢true (sym miss ∙ Covers→route_matches t path c))
        (check_paths-FirstCovering path m))
]

module _ {R : Type 0} (ops : RouteMap R) where
  open ops use {Map, get, entries, add, get-entries, get-add}

  -- The exact route if the map has one, or else the first wildcard that covers the path.
  abbrev pub Answers : Map → Bytes → Result (Option R) → Type 0
  Answers routes uri r =
      ((a : R) × (lookup uri (entries routes) ≡ some a) × (r ≡ ok (some a)))
      ⊎ ((lookup uri (entries routes) ≡ none)
          × ((o : Option R) × FirstCovering uri (entries routes) o × (r ≡ ok o)))

  -- For a path without a NUL, of fewer than 128 bytes, resolve_route answers the route with exactly
  -- that path, or where there is none the first in the order of the iteration whose path is a base
  -- with "/..." such that the path goes more than four bytes past the base, or NULL where there is
  -- none of these.
  pub resolve_route-Answers :
      (routes : Map) (uri : Bytes)
      → IsText uri
      → length uri < 128
      → Answers routes uri (resolve_route ops routes uri)
  unfolding resolve_route
  resolve_route-Answers routes uri t short =
      let path : print_at_most (length uri) uri ≡ uri =
        rw append-nil at (print_at_most_whole uri [] t) in
      elim (Option-cases (get routes uri)) [
        | inl missing ↦ inr (
          sym (get-entries routes uri) ∙ missing,
          (
            check_paths uri (entries routes),
            check_paths-FirstCovering uri (entries routes),
            rw (lt→ltb _ _ short, path, missing),
          ),
        )
        | inr (a, found) ↦
            inl (a, sym (get-entries routes uri) ∙ found, rw (lt→ltb _ _ short, path, found))
      ]

  -- A request whose path has 128 bytes or more fails the assertion, whatever the routes are.
  pub resolve_route_long :
      (routes : Map) (uri : Bytes)
      → 128 ≤ length uri
      → resolve_route ops routes uri ≡ fault failed_assert
  unfolding resolve_route
  resolve_route_long routes uri long = rw (le→ltb _ _ long)

  -- After http_use a path without a NUL, of fewer than 128 bytes, reaches the new route if it is
  -- the new path, and every other such path that had a route of its own reaches the one it had.
  pub resolve_route-http_use :
      (routes : Map) (path uri : Bytes) (route r : R)
      → IsText uri
      → length uri < 128
      → lookup uri ((path, route) ∷ entries routes) ≡ some r
      → resolve_route ops (http_use ops routes path route) uri ≡ ok (some r)
  unfolding resolve_route http_use
  resolve_route-http_use routes path uri route r t short h =
      let whole : print_at_most (length uri) uri ≡ uri =
        rw append-nil at (print_at_most_whole uri [] t) in
      let found : get (add routes path route) uri ≡ some r =
        rw (get-add routes path uri route, get-entries routes uri) h in
      rw (lt→ltb _ _ short, whole, found)
