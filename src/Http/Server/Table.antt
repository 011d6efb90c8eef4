-- ===== src/Http/Server/Table.antt =====
-- The routes of a server that listens.
use atx_sys.Common.{
  ◌-◌, ◌<◌, ◌≡◌, refl, sym, ap, ◌∙◌, false, List, [], ◌∷◌, ◌++◌, Option, none, some, length, drop,
  Bytes, codes, IsText, bytes_eq, bytes_eq_iff, bytes_eq_refl, bytes_eq_ne, Bool-cases, inl, inr,
  ok, length-append, drop-append_self, arith,
}
use atx_sys.Http.Routes.{RouteMap, lookup, resolve_route, http_use}
use atx_sys.Http.Routes.Resolve.{
  Covers, FirstCovering, no_entry, covering, passed, resolve_route-Answers,
}
use atx_sys.Http.Server.{Handler, route_env, route_network, route_kill, route_about, http_listen}

-- The four paths and their callbacks.
abbrev pub table : List (Bytes × Handler)
table =
    (codes "/api/v1/about", route_about)
    ∷ (codes "/api/v1/kill", route_kill)
    ∷ (codes "/api/v1/network", route_network)
    ∷ (codes "/api/v1/env", route_env)
    ∷ []

-- The route that a wildcard gives has the wildcard as its own path.
FirstCovering-lookup :
    {R : Type 0} {path : Bytes} {m : List (Bytes × R)} {o : Option R}
    → FirstCovering path m o
    → {r : R} → o ≡ some r
    → (t : Bytes) × Covers t path × (lookup t m ≡ some r)
FirstCovering-lookup no_entry h = absurd (cc)
FirstCovering-lookup (covering {t} c) h = (t, c, rw (bytes_eq_refl t) h)
FirstCovering-lookup (passed {t} n f) h =
    let (t', c, e) = FirstCovering-lookup f h in
    elim (Bool-cases (bytes_eq t t')) [
      | inl same ↦ absurd (n (rw (← (bytes_eq_iff t t').0 same) at c))
      | inr other ↦ (t', c, rw other e)
    ]

-- A path that does not end in "/..." is no wildcard.
not_wildcard :
    (path base : Bytes)
    → bytes_eq (drop (length path - 4) path) (codes "/...") ≡ false
    → bytes_eq path (base ++ codes "/...") ≡ false
not_wildcard path base h = elim (Bool-cases (bytes_eq path (base ++ codes "/..."))) [
  | inr other ↦ other
  | inl same ↦
      let whole : path ≡ base ++ codes "/..." = (bytes_eq_iff _ _).0 same in
      let start : length path - 4 ≡ length base =
        omega (arith, ap length whole, length-append {0} base (codes "/...")) in
      let ending : drop (length path - 4) path ≡ codes "/..." =
        rw start (rw whole (drop-append_self base (codes "/..."))) in
      absurd (bytes_eq_ne _ _ h ending)
]

lookup-wildcard : (base : Bytes) → lookup (base ++ codes "/...") table ≡ none
lookup-wildcard base = rw (
  not_wildcard (codes "/api/v1/about") base (unfold bytes_eq in refl),
  not_wildcard (codes "/api/v1/kill") base (unfold bytes_eq in refl),
  not_wildcard (codes "/api/v1/network") base (unfold bytes_eq in refl),
  not_wildcard (codes "/api/v1/env") base (unfold bytes_eq in refl),
)

clash : {r : Handler} → none ≡ some r → ⊥
clash h = cc

module _ (ops : RouteMap Handler) where
  open ops use {Map, empty, get, entries, get-entries, get-add, get-empty}

  get-http_listen : (uri : Bytes) → get (http_listen ops empty) uri ≡ lookup uri table
  unfolding http_listen http_use
  get-http_listen uri = rw (get-add, get-add, get-add, get-add, get-empty)

  lookup-http_listen :
      (uri : Bytes) → lookup uri (entries (http_listen ops empty)) ≡ lookup uri table
  lookup-http_listen uri = sym (get-entries (http_listen ops empty) uri) ∙ get-http_listen uri

  -- On a new server that listens, a path without a NUL, of fewer than 128 bytes, reaches the
  -- callback that stands in the table of the four paths, and any other such path reaches none.
  pub resolve_route-http_listen :
      (uri : Bytes)
      → IsText uri
      → length uri < 128
      → resolve_route ops (http_listen ops empty) uri ≡ ok (lookup uri table)
  resolve_route-http_listen uri text short =
      elim (resolve_route-Answers ops (http_listen ops empty) uri text short) [
        | inl (a, found, e) ↦ e ∙ ap ok (sym found ∙ lookup-http_listen uri)
        | inr (missing, (o, first, e)) ↦
            e ∙ ap ok (none_first o first ∙ sym missing ∙ lookup-http_listen uri)
      ]
    where
      none_first :
          (o : Option Handler) → FirstCovering uri (entries (http_listen ops empty)) o → o ≡ none
      none_first none first = refl
      none_first (some r) first =
          let (t, (base, rest, e, f, h), found) = FirstCovering-lookup first refl in
          absurd (
            clash (
              sym (lookup-wildcard base)
              ∙ sym (ap (λ u. lookup u table) e)
              ∙ sym (lookup-http_listen t)
              ∙ found))
