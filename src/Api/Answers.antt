-- ===== src/Api/Answers.antt =====
-- A path that is not served, and the device's answer about itself.
use atx_sys.Common.{
  ℕ, ◌≡◌, refl, sym, ap, ◌∙◌, ◌<◌, ◌^◌, Bool, true, false, List, [], ◌∷◌, ◌++◌, Option, none, some,
  Bytes, codes, length, Result, ok, ◌>>=◌, arith, IsText, inl, inr, Bool-cases, ◌⊎◌, ◌||◌,
}
use atx_sys.Http.Routes.{RouteMap, lookup, resolve_route}
use atx_sys.Http.Sent.{sent}
use atx_sys.Http.Sent.Client.{read_response, read_response-sent}
use atx_sys.Http.Server.{
  route_or, without_route, http_request, ev_handler, Handler, route_about, not_found,
}
use atx_sys.Http.Server.Table.{table, resolve_route-http_listen}
use atx_sys.RouteNetwork.{Disk}
use atx_sys.Api.{Message, Outside, World, call_handler, respond}
use atx_sys.Api.Network.{Listens}

module _ (ops : RouteMap Handler) where
  open ops use {Map, empty}

  pub ev_handler-table :
      (out : Outside) (m : Message) (w : World Map) (o : Option Handler)
      → Listens ops w
      → IsText m.request.uri
      → length m.request.uri < 128
      → lookup m.request.uri table ≡ o
      → ev_handler ops w.http.routes out.files w.http.document_root (http_request m.request)
        ≡ ok (route_or (without_route out.files w.http.document_root m.request) m.request o)
  unfolding ev_handler
  ev_handler-table out m w o h text short e =
      let found : resolve_route ops w.http.routes m.request.uri ≡ ok o =
        ap (λ r. resolve_route ops r m.request.uri) h
        ∙ resolve_route-http_listen ops m.request.uri text short
        ∙ ap ok e in
      rw found

  -- On a server without a root, a path that reaches no route is answered with 404, as a client reads it.
  pub respond_unknown :
      (out : Outside) (disk : Disk) (m : Message) (w : World Map)
      → Listens ops w
      → IsText m.request.uri
      → length m.request.uri < 128
      → lookup m.request.uri table ≡ none
      → w.http.document_root ≡ none
      → (respond ops out disk m w ≡ ok (w, sent not_found))
        × (read_response (sent not_found) ≡ some not_found)
  unfolding respond
  respond_unknown out disk m w h text short unknown bare = (
    rw (ev_handler-table out m w none h text short unknown, bare),
    read_response-sent not_found (omega arith) (omega arith),
  )

  -- A request for the device, by any method, is answered with what a client reads as that text.
  pub respond_about :
      (out : Outside) (disk : Disk) (m : Message) (w : World Map)
      → Listens ops w
      → m.request.uri ≡ codes "/api/v1/about"
      → (respond ops out disk m w ≡ ok (w, sent atx_sys.RouteAbout.route_about))
        × (read_response (sent atx_sys.RouteAbout.route_about)
            ≡ some atx_sys.RouteAbout.route_about)
  unfolding respond call_handler atx_sys.RouteAbout.route_about atx_sys.RouteAbout.about_fmt
      atx_sys.Common.bytes_eq
  respond_about out disk m w h e = (
    rw (
        ev_handler-table out m w (some route_about) h (rw e (omega arith)) (rw e (omega arith))
          (ap (λ u. lookup u table) e)),
    read_response-sent atx_sys.RouteAbout.route_about (omega arith) (omega arith),
  )
