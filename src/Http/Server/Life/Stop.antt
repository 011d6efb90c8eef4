-- ===== src/Http/Server/Life/Stop.antt =====
-- Which requests stop the server.
use atx_sys.Common.{
  sym, ok-injective, ◌<◌, ◌≡◌, refl, ap, ◌∙◌, Bool, ◌||◌, Option, none, some, length, Bytes, codes,
  IsText, bytes_eq, bytes_eq_iff, Bool-cases, inl, inr, ok, arith,
}
use atx_sys.Http.Routes.{lookup, resolve_route, RouteMap}
use atx_sys.Http.Server.{
  Request, Files, Action, without_route, process_file, route_or, ev_handler, Handler, http_listen,
  http_request,
}
use atx_sys.Http.Server.Table.{table, resolve_route-http_listen}
use atx_sys.Http.Server.Life.{Http, after_action}

abbrev pub asks_kill : Request → Bool
asks_kill m = bytes_eq (codes "/api/v1/kill") m.uri

abbrev pub stopped : {M : Type 0} → Bool → Http M → Http M
stopped b s = record s { shutdown = b || s.shutdown }

after-without_route :
    {M : Type 0} (files : Files) (root : Option Bytes) (m : Request) (s : Http M)
    → after_action (without_route files root m) s ≡ s
unfolding process_file
after-without_route files none m s = refl
after-without_route files (some root) m s = go (files.parse_uri m.uri)
  where
    go : (o : Option Bytes) → after_action (atx_sys.Http.Server.file_at files root o) s ≡ s
    go none = refl
    go (some path) = ground arith

after-table :
    {M : Type 0} (other : Action Handler) (m : Request) (s : Http M)
    → after_action other s ≡ s
    → after_action (route_or other m (lookup m.uri table)) s ≡ stopped (asks_kill m) s
after-table other m s none_done = elim (Bool-cases (bytes_eq (codes "/api/v1/about") m.uri)) [
  | inl about ↦ rw (← (bytes_eq_iff _ _).0 about) (unfold bytes_eq in refl)
  | inr a ↦ elim (Bool-cases (asks_kill m)) [
    | inl kill ↦ rw (a, kill)
    | inr k ↦ elim (Bool-cases (bytes_eq (codes "/api/v1/network") m.uri)) [
      | inl network ↦ rw (a, k, network)
      | inr n ↦ elim (Bool-cases (bytes_eq (codes "/api/v1/env") m.uri)) [
        | inl env ↦ rw (a, k, n, env)
        | inr e ↦ rw (a, k, n, e) none_done
      ]
    ]
  ]
]

module _ (ops : RouteMap Handler) where
  open ops use {Map, empty}

  pub after_action-kill :
      (files : Files) (a : Action Handler) (m : Request) (s : Http Map)
      → s.routes ≡ http_listen ops empty
      → IsText m.uri
      → length m.uri < 128
      → ev_handler ops s.routes files s.document_root (http_request m) ≡ ok a
      → after_action a s ≡ stopped (asks_kill m) s
  unfolding ev_handler
  after_action-kill files a m s listens text short e =
      let route : resolve_route ops s.routes m.uri ≡ ok (lookup m.uri table) =
        ap (λ r. resolve_route ops r m.uri) listens
        ∙ resolve_route-http_listen ops m.uri text short in
      let other = without_route files s.document_root m in
      ap (λ b. after_action b s) (sym (ok-injective (rw route at e)))
      ∙ after-table other m s (after-without_route files s.document_root m s)
