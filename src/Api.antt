-- ===== src/Api.antt =====
-- The server as a browser sees it: a request, through the routes and their callbacks, to the bytes on
-- the connection (http.c, http_route_*.c).
--
-- The settings' file and the server's state go from one request to the next. What the other models take
-- as arguments is the record `Outside`; mongoose sends the files itself, and what it sends is a part of
-- it. `pointer` is the size of a pointer, and
-- `valid` whether env_init succeeded.
pub mod Network
pub mod Answers
pub mod Keeps
pub mod Steps
pub mod Statuses
pub mod Sends
use atx_sys.Common.{
  Bool, fault, bad_read, if◌then◌else◌, ℕ, List, [], Option, none, some, Bytes, codes, length,
  Result, ok, ◌>>=◌,
}
use atx_sys.Json.{Jsmn}
use atx_sys.Env.{Var}
use atx_sys.Http.{Response}
use atx_sys.Http.Codes.{Method}
use atx_sys.Http.Query.{Strstr}
use atx_sys.Http.Routes.{RouteMap}
use atx_sys.Http.Sent.{sent}
use atx_sys.Http.Server.{
  Request, Files, Action, call_route, serve_file, serve_root, reply, nothing, http_request,
  ev_handler, Handler, route_env, route_network, route_kill, route_about,
}
use atx_sys.Http.Server.Life.{Http, kill_answer, after_action}
use atx_sys.RouteNetwork.{Disk}

-- A request with its query, and the bytes of the message behind the query.
pub record Message : Type 0 where
  pub request : Request
  pub query : Bytes
  pub behind : Bytes

pub record Outside : Type 0 where
  pub jsmn : Jsmn
  pub strstr : Strstr
  pub files : Files
  pub send_file : Bytes → Bytes
  pub send_root : Bytes → Bytes
  pub vars : List Var
  pub buffer : Bytes
  pub pointer : ℕ
  pub valid : Bool

pub record World (M : Type 0) : Type 0 where
  pub http : Http M
  pub settings : Option Bytes

-- The bytes of an answer, if there is one.
abbrev pub sent_any : Option Response → Bytes
sent_any none = []
sent_any (some r) = sent r

-- A GET reads through the context of libubootenv: where env_init failed there is none, or one that was
-- released.
abbrev pub context_of : Bool → Method → Result (Unit {0})
context_of valid Method.get = if valid then ok tt else fault bad_read
context_of valid Method.put = ok tt
context_of valid Method.post = ok tt
context_of valid Method.delete = ok tt

-- What a route's callback sends, and the settings' file after it.
unfoldable pub call_handler :
    Outside
    → Disk
    → Message
    → Handler
    → Method
    → Bytes
    → Option Bytes
    → Result (Option Bytes × Bytes)
call_handler out disk m route_env method body settings = do
  _ ← context_of out.valid method
  r ← atx_sys.RouteEnv.route_env out.pointer out.strstr m.query m.behind out.vars out.buffer method
  ok (settings, sent_any r)
call_handler out disk m route_network method body settings = do
  (settings', r) ←
      atx_sys.RouteNetwork.route_network out.jsmn disk settings method (length body) body
  ok (settings', sent_any r)
call_handler out disk m route_kill method body settings = ok (settings, sent kill_answer)
call_handler out disk m route_about method body settings =
    ok (settings, sent atx_sys.RouteAbout.route_about)

abbrev pub perform :
    Outside → Disk → Message → Action Handler → Option Bytes → Result (Option Bytes × Bytes)
perform out disk m (call_route h method body) settings =
    call_handler out disk m h method body settings
perform out disk m (serve_file path) settings = ok (settings, out.send_file path)
perform out disk m (serve_root path) settings = ok (settings, out.send_root path)
perform out disk m (reply r) settings = ok (settings, sent r)
perform out disk m nothing settings = ok (settings, [])

module _ (ops : RouteMap Handler) where
  open ops use {Map}

  -- The state and the bytes on the connection after a request.
  unfoldable pub respond : Outside → Disk → Message → World Map → Result (World Map × Bytes)
  respond out disk m w = do
    a ← ev_handler ops w.http.routes out.files w.http.document_root (http_request m.request)
    (settings', bytes) ← perform out disk m a w.settings
    let w' : World Map = record { http = after_action a w.http; settings = settings' }
    ok (w', bytes)
