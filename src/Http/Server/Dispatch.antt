-- ===== src/Http/Server/Dispatch.antt =====
-- Which action a request leads to.
use atx_sys.Common.{
  ◌<◌, ◌≡◌, refl, List, [], ◌∷◌, Option, none, some, length, Bytes, IsText, ok, inl, inr,
}
use atx_sys.Http.Codes.{get_method}
use atx_sys.Http.Routes.{RouteMap, lookup}
use atx_sys.Http.Routes.Resolve.{
  Covers, FirstCovering, no_entry, covering, passed, resolve_route-Answers,
}
use atx_sys.Http.Server.{Request, Files, call_route, without_route, http_request, ev_handler}

-- No entry's path covers this path.
abbrev pub NoneCovers : {R : Type 0} → Bytes → List (Bytes × R) → Type 0
NoneCovers path [] = Unit {0}
NoneCovers path ((t, r) ∷ m) = (¬ Covers t path) × NoneCovers path m

NoneCovers-none :
    {R : Type 0} {path : Bytes} {m : List (Bytes × R)} {o : Option R}
    → FirstCovering path m o
    → NoneCovers path m
    → o ≡ none
NoneCovers-none no_entry h = refl
NoneCovers-none (covering c) h = absurd (h.0 c)
NoneCovers-none (passed c f) h = NoneCovers-none f h.1

no_such : {R : Type 0} {o : Option R} {r : R} → o ≡ none → o ≡ some r → ⊥
no_such h k = cc

module _ {R : Type 0} (ops : RouteMap R) where
  open ops use {Map, entries}

  -- A request whose path, without a NUL and of fewer than 128 bytes, has a route of its own calls
  -- that route's callback with the request's method and body.
  pub ev_handler-route :
      (routes : Map) (files : Files) (root : Option Bytes) (m : Request) (r : R)
      → IsText m.uri
      → length m.uri < 128
      → lookup m.uri (entries routes) ≡ some r
      → ev_handler ops routes files root (http_request m)
        ≡ ok (call_route r (get_method m.method) m.body)
  unfolding ev_handler
  ev_handler-route routes files root m r text short found =
      elim (resolve_route-Answers ops routes m.uri text short) [
        | inl (a, there, e) ↦ rw e (cc)
        | inr (missing, rest) ↦ absurd (no_such missing found)
      ]

  -- A request whose path, without a NUL and of fewer than 128 bytes, has no route of its own and is
  -- covered by no wildcard is answered with 404 where there is no root, and else is left to the
  -- files.
  pub ev_handler-unrouted :
      (routes : Map) (files : Files) (root : Option Bytes) (m : Request)
      → IsText m.uri
      → length m.uri < 128
      → lookup m.uri (entries routes) ≡ none
      → NoneCovers m.uri (entries routes)
      → ev_handler ops routes files root (http_request m) ≡ ok (without_route files root m)
  unfolding ev_handler
  ev_handler-unrouted routes files root m text short missing clear =
      elim (resolve_route-Answers ops routes m.uri text short) [
        | inl (a, there, e) ↦ absurd (no_such missing there)
        | inr (lost, (o, first, e)) ↦ rw (e, NoneCovers-none first clear)
      ]
