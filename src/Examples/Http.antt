-- ===== src/Examples/Http.antt =====
-- A server with a route of its own, a wildcard, and queries.
use atx_sys.Common.{
  arith, ◌≡◌, ◌⊎◌, refl, List, [], ◌∷◌, ◌++◌, Option, none, some, Bytes, codes, length, Result, ok,
  fault, failed_assert, pos, true, false, replicate, ℕ,
}
use atx_sys.Http.{Response}
use atx_sys.Http.Routes.{RouteMap, lookup, resolve_route, http_use}
use atx_sys.Http.Routes.Resolve.{Answers, resolve_route-Answers}
use atx_sys.Http.Query.{http_parse_query_str}
use atx_sys.Http.Query.Value.{http_parse_query_str-value}

-- The routes as a list, the last added first.
abbrev listed : RouteMap ℕ
listed = record {
  Map = List (Bytes × ℕ);
  empty = [];
  get = λ m k. lookup k m;
  entries = λ m. m;
  add = λ m k r. (k, r) ∷ m;
  get-empty = λ k. refl;
  get-entries = λ m k. refl;
  get-add = λ m k j r. refl;
}

abbrev routes : List (Bytes × ℕ)
routes = (codes "/a", 1) ∷ (codes "/files/...", 2) ∷ []

abbrev covered : Bytes
covered = codes "/files/long.txt"

resolves : resolve_route listed routes covered ≡ ok (some 2)
unfolding resolve_route atx_sys.Common.bytes_eq atx_sys.Common.print_at_most
    atx_sys.Http.Routes.check_paths atx_sys.Http.Routes.route_matches
resolves = refl

resolve_route-Answers_example : Answers listed routes covered (resolve_route listed routes covered)
resolve_route-Answers_example =
    resolve_route-Answers listed routes covered (omega arith) (omega arith)

-- A search that finds the name behind "my".
http_parse_query_str-value_example :
    http_parse_query_str
      (λ q w. some 2)
      (codes "my" ++ (codes "var" ++ b'=' ∷ (codes "abc" ++ codes "&x=1")))
      (codes " HTTP/1.1")
      (codes "var")
    ≡ ok (some (codes "abc" ++ (codes "&x=1" ++ codes " HTTP/1.1"), 3))
http_parse_query_str-value_example =
    http_parse_query_str-value (λ q w. some 2) (codes "my") (codes "var") (codes "abc")
      (codes "&x=1") (codes " HTTP/1.1") refl (omega arith) (omega arith) refl
