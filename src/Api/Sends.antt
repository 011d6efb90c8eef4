-- ===== src/Api/Sends.antt =====
-- What the server sends for a request.
use mathlib.Core.Path.{subst}
use atx_sys.Common.{
  Holds, Holds-then, Holds-bind, ap, ◌≡◌, refl, inl, inr, Bool, true, false, ◌++◌, [], Option, none,
  some, Bytes, codes, length, ok, if◌then◌else◌, print_at_most, bind-ok, ok-injective,
}
use atx_sys.Http.{Response}
use atx_sys.Http.Codes.{Method}
use atx_sys.Http.Routes.{RouteMap, resolve_route}
use atx_sys.Http.Sent.{sent}
use atx_sys.Http.Server.{
  Request, Files, Action, call_route, serve_file, serve_root, reply, nothing, http_request,
  into_512, file_at, process_file, without_route, route_or, ev_handler, Handler, route_env,
  route_network, route_kill, route_about,
}
use atx_sys.RouteNetwork.{Disk}
use atx_sys.Api.{Message, Outside, World, sent_any, call_handler, perform, respond}
use atx_sys.Api.Statuses.{
  IsStatus, IsStatusAny, HasStatusAny, route_env-IsStatus, route_network-HasStatusAny,
}

-- Nothing, what mongoose sends of a file, or a response with one of the codes.
pub data IsAnswer (out : Outside) : Bytes → Type 0 where
  nothing_sent : IsAnswer out []
  file_sent : (path : Bytes) → IsAnswer out (out.send_file path)
  root_sent : (root : Bytes) → IsAnswer out (out.send_root root)
  response_sent : (r : Response) → IsStatus r.code → IsAnswer out (sent r)

abbrev Answers : Outside → Option Bytes × Bytes → Type 0
Answers out x = IsAnswer out x.1

sent_any-IsAnswer :
    (out : Outside) (o : Option Response) → IsStatusAny o → IsAnswer out (sent_any o)
sent_any-IsAnswer out none h = nothing_sent
sent_any-IsAnswer out (some r) h = response_sent r h

call_handler-Answers :
    (out : Outside) (disk : Disk) (m : Message) (h : Handler) (method : Method) (body : Bytes)
    (settings : Option Bytes)
    → Holds (Answers out) (call_handler out disk m h method body settings)
unfolding call_handler atx_sys.RouteAbout.route_about
call_handler-Answers out disk m route_env method body settings =
    Holds-bind (Answers out) (atx_sys.Api.context_of out.valid method) _ (λ u.
      Holds-then IsStatusAny (Answers out) _ _ (route_env-IsStatus out m method)
        (sent_any-IsAnswer out))
call_handler-Answers out disk m route_network method body settings =
    Holds-then HasStatusAny (Answers out) _ _
      (route_network-HasStatusAny out.jsmn disk settings method (length body) body)
      (λ x. sent_any-IsAnswer out x.1)
call_handler-Answers out disk m route_kill method body settings = response_sent _ (inl refl)
call_handler-Answers out disk m route_about method body settings = response_sent _ (inl refl)

-- An answer of the server itself has one of the codes.
abbrev Replies : Action Handler → Type 0
Replies (reply r) = IsStatus r.code
Replies (call_route h method body) = Unit
Replies (serve_file path) = Unit
Replies (serve_root root) = Unit
Replies nothing = Unit

perform-Answers :
    (out : Outside) (disk : Disk) (m : Message) (a : Action Handler) (settings : Option Bytes)
    → Replies a
    → Holds (Answers out) (perform out disk m a settings)
perform-Answers out disk m (call_route h method body) settings k =
    call_handler-Answers out disk m h method body settings
perform-Answers out disk m (serve_file path) settings k = file_sent path
perform-Answers out disk m (serve_root root) settings k = root_sent root
perform-Answers out disk m (reply r) settings k = response_sent r k
perform-Answers out disk m nothing settings k = nothing_sent

file_at-Replies : (files : Files) (root : Bytes) (o : Option Bytes) → Replies (file_at files root o)
file_at-Replies files root none = tt
file_at-Replies files root (some path) =
    go (files.exists (into_512 (root ++ print_at_most (length path) path)))
  where
    go :
        (b : Bool)
        → Replies
            (if b then serve_root root else serve_file (into_512 (root ++ codes "/index.html")))
    go true = tt
    go false = tt

route_or-Replies :
    (files : Files) (root : Option Bytes) (m : Request) (o : Option Handler)
    → Replies (route_or (without_route files root m) m o)
unfolding process_file
route_or-Replies files root m (some h) = tt
route_or-Replies files none m none = inr (inl refl)
route_or-Replies files (some root) m none = file_at-Replies files root (files.parse_uri m.uri)

module _ (ops : RouteMap Handler) where
  open ops use {Map}

  pub respond-IsAnswer :
      (out : Outside) (disk : Disk) (m : Message) (w w' : World Map) (bytes : Bytes)
      → respond ops out disk m w ≡ ok (w', bytes)
      → IsAnswer out bytes
  unfolding respond ev_handler
  respond-IsAnswer out disk m w w' bytes e =
      let (a, handled, acted) =
        bind-ok
          (ev_handler ops w.http.routes out.files w.http.document_root (http_request m.request)) _
          (w', bytes) e in
      let (o, resolved, acts) =
        bind-ok (resolve_route ops w.http.routes m.request.uri) _ a handled in
      let (x, performed, last) = bind-ok (perform out disk m a w.settings) _ (w', bytes) acted in
      let replies : Replies a =
        subst Replies (ok-injective acts)
          (route_or-Replies out.files w.http.document_root m.request o) in
      let answers : IsAnswer out x.1 =
        subst (Holds (Answers out)) performed (perform-Answers out disk m a w.settings replies) in
      subst (IsAnswer out) (ap (λ p. p.1) (ok-injective last)) answers
