-- ===== src/Http/Server.antt =====
-- The server of http.c: what it does with a request, and the routes that it listens with.
--
-- mongoose's connections are left out: a request is its uri, its method and its body. What mongoose
-- and the file system decide is an argument: the path that mg_parse_uri finds, and whether stat finds
-- a file. mongoose itself serves the endpoint that `http_listen` registers for uploads.
pub mod Dispatch
pub mod Table
pub mod Life
use atx_sys.Common.{
  ℕ, Bool, true, false, List, [], ◌∷◌, ◌++◌, Option, none, some, if◌then◌else◌, Bytes, codes, take,
  Result, ok, ◌>>=◌, length, print_at_most,
}
use atx_sys.Http.{Response}
use atx_sys.Http.Codes.{Method, get_method}
use atx_sys.Http.Routes.{RouteMap, resolve_route, http_use}

pub record Request : Type 0 where
  pub uri : Bytes
  pub method : Bytes
  pub body : Bytes

pub record Files : Type 0 where
  pub parse_uri : Bytes → Option Bytes
  pub exists : Bytes → Bool

-- What is done with a request: a route's callback with the method and the body, the index page, the
-- file that mongoose finds under the root, an answer, or nothing.
pub data Action (R : Type 0) : Type 0 where
  call_route : R → Method → Bytes → Action R
  serve_file : Bytes → Action R
  serve_root : Bytes → Action R
  reply : Response → Action R
  nothing : Action R

-- snprintf into the buffer of 512 bytes
abbrev pub into_512 : Bytes → Bytes
into_512 s = take 511 s

abbrev pub file_at : {R : Type 0} → Files → Bytes → Option Bytes → Action R
file_at files root none = nothing
file_at files root (some path) =
    if files.exists (into_512 (root ++ print_at_most (length path) path))
    then serve_root root
    else serve_file (into_512 (root ++ codes "/index.html"))

unfoldable pub process_file : {R : Type 0} → Files → Bytes → Bytes → Action R
process_file files root uri = file_at files root (files.parse_uri uri)

abbrev pub not_found : Response
not_found = record { code = 404; body = codes "{\"error\":\"not found\"}" }

-- Without a route: the files, if there is a root to serve, or else a 404.
abbrev pub without_route : {R : Type 0} → Files → Option Bytes → Request → Action R
without_route files none m = reply not_found
without_route files (some root) m = process_file files root m.uri

abbrev pub route_or : {R : Type 0} → Action R → Request → Option R → Action R
route_or other m none = other
route_or other m (some r) = call_route r (get_method m.method) m.body

-- The events of a connection: a request, and those that are only logged.
pub data Event : Type 0 where
  http_request : Request → Event
  logged : ℕ → Event

-- The routes that http.c knows.
pub data Handler : Type 0 where
  route_env route_network route_kill route_about : Handler

module _ {R : Type 0} (ops : RouteMap R) where
  open ops use {Map}

  unfoldable pub ev_handler : Map → Files → Option Bytes → Event → Result (Action R)
  ev_handler routes files root (http_request m) = do
    r ← resolve_route ops routes m.uri
    ok (route_or (without_route files root m) m r)
  ev_handler routes files root (logged n) = ok nothing

module _ (ops : RouteMap Handler) where
  open ops use {Map}

  -- The routes that `http_listen` adds.
  unfoldable pub http_listen : Map → Map
  http_listen routes =
      http_use ops
        (http_use ops
          (http_use ops (http_use ops routes (codes "/api/v1/env") route_env)
            (codes "/api/v1/network") route_network)
          (codes "/api/v1/kill") route_kill)
        (codes "/api/v1/about") route_about
