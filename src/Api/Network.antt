-- ===== src/Api/Network.antt =====
-- The settings over HTTP, from the bytes of one connection to those of the next.
use atx_sys.Common.{
  ℕ, suc, ◌≡◌, refl, sym, ap, ◌∙◌, ◌<◌, ◌^◌, true, List, [], ◌∷◌, ◌++◌, Option, none, some, Bytes,
  codes, length, Result, ok, ◌>>=◌, arith, IsText,
}
use atx_sys.Json.{parsed}
use atx_sys.Json.Layout.{Node, layout}
use atx_sys.Network.{NetworkConfig, print_network_config}
use atx_sys.Network.Parse.{settings_of}
use atx_sys.Http.{Response}
use atx_sys.Http.Codes.{get_method}
use atx_sys.Http.Format.{IsPlain}
use atx_sys.Http.Routes.{RouteMap, lookup, resolve_route}
use atx_sys.Http.Sent.{sent}
use atx_sys.Http.Sent.Client.{read_response, read_response-sent}
use atx_sys.Http.Server.{
  Action, call_route, route_or, without_route, http_request, ev_handler, Handler, route_network,
  http_listen,
}
use atx_sys.Http.Server.Table.{table, resolve_route-http_listen}
use atx_sys.RouteNetwork.{Disk}
use atx_sys.RouteNetwork.ReadBack.{route_network_get-put}
use atx_sys.Api.{Message, Outside, World, call_handler, respond, sent_any}

abbrev pub network_uri : Bytes
network_uri = codes "/api/v1/network"

abbrev pub ask : Bytes → Bytes → Message
ask method body = record {
  request = record { uri = network_uri; method = method; body = body };
  query = [];
  behind = [];
}

lookup-network : lookup network_uri table ≡ some route_network
unfolding atx_sys.Common.bytes_eq
lookup-network = refl

module _ (ops : RouteMap Handler) where
  open ops use {Map, empty}

  abbrev pub Listens : World Map → Type 0
  Listens w = w.http.routes ≡ http_listen ops empty

  ev_handler-network :
      (out : Outside) (method body : Bytes) (w : World Map)
      → Listens w
      → ev_handler ops w.http.routes out.files w.http.document_root
          (http_request (ask method body).request)
        ≡ ok (call_route route_network (get_method method) body)
  unfolding ev_handler
  ev_handler-network out method body w h =
      let other : Action Handler =
        without_route out.files w.http.document_root (ask method body).request in
      let found : resolve_route ops w.http.routes network_uri ≡ ok (some route_network) =
        ap (λ r. resolve_route ops r network_uri) h
        ∙ resolve_route-http_listen ops network_uri (omega arith) (omega arith)
        ∙ ap ok lookup-network in
      ap (λ r. r >>= λ o. ok (route_or other (ask method body).request o)) found

  abbrev kept : World Map → Option Bytes → World Map
  kept w settings = record { http = w.http; settings = settings }

  -- A request for the settings is what the route does with it, and the server stays.
  pub respond-network :
      (out : Outside) (disk : Disk) (method body : Bytes) (w : World Map) (settings : Option Bytes)
      (r : Option Response)
      → Listens w
      → atx_sys.RouteNetwork.route_network out.jsmn disk w.settings
          (get_method method)
          (length body)
          body
        ≡ ok (settings, r)
      → respond ops out disk (ask method body) w ≡ ok (kept w settings, sent_any r)
  unfolding respond call_handler
  respond-network out disk method body w settings r h e =
      rw (ev_handler-network out method body w h, e)

  -- On a server with the routes of http_listen alone, given the tokens of the body's document with
  -- its five settings, a PUT to /api/v1/network that the disk takes is answered with bytes that a
  -- client reads as 200 and "ok", and a GET behind it with bytes that a client reads as 200 and the
  -- settings in the file's format, if that text has no percent sign, no NUL and fewer than 2^31
  -- bytes.
  pub respond-put_get :
      (out : Outside) (disk : Disk) (b : Bytes) (n : ℕ) (v : Node) (c : NetworkConfig)
      (w : World Map)
      → Listens w
      → out.jsmn b (length b) 256 ≡ parsed (suc n) (layout v)
      → settings_of b v ≡ some c
      → disk.opens ≡ true
      → disk.prints ≡ true
      → disk.closes ≡ true
      → IsPlain (print_network_config c)
      → length (print_network_config c) < 2 ^ 31
      → (w' : World Map) × (first second : Bytes) × (respond ops out disk (ask (codes "PUT") b) w
          ≡ ok (w', first))
        × (read_response first ≡ some (record { code = 200; body = codes "{\"error\":\"ok\"}" }))
        × (respond ops out disk (ask (codes "GET") []) w' ≡ ok (w', second))
        × (read_response second ≡ some (record { code = 200; body = print_network_config c }))
  unfolding atx_sys.RouteNetwork.route_network get_method
  respond-put_get out disk b n v c w h tokens found opens prints closes plain short =
      let text : Bytes = print_network_config c in
      let done : Response = record { code = 200; body = codes "{\"error\":\"ok\"}" } in
      let shown : Response = record { code = 200; body = text } in
      let (put, get) =
        route_network_get-put out.jsmn disk w.settings (length b) b n v c tokens found opens prints
          closes plain in
      (
        kept w (some text),
        sent done,
        sent shown,
        respond-network out disk (codes "PUT") b w (some text) (some done) h put,
        read_response-sent done (omega arith) (omega arith),
        respond-network out disk (codes "GET") [] (kept w (some text)) (some text) (some shown) h
            get,
        read_response-sent shown (omega arith) short,
      )
