-- ===== src/Http/Server/Life.antt =====
-- The server of http.c from http_init to http_deinit, and the kill route (http_route_kill.c).
--
-- mongoose is left out; what it hands over while it is polled is in Live.
pub mod Stop
use atx_sys.Common.{
  ℕ, suc, Bool, true, false, not, ◌&&◌, List, [], ◌∷◌, ◌++◌, Option, none, some, if◌then◌else◌,
  Bytes, codes, ℤ, pos, Result, ok, ◌>>=◌,
}
use atx_sys.Updater.{Updater, Call, updater_free}
use atx_sys.Updater.Progress.{
  Progress, Callbacks, Wire, Notice, updater_progress_init, updater_progress_free,
  updater_progress_poll,
}
use atx_sys.Http.{Response}
use atx_sys.Http.Codes.{Method, http_error_message}
use atx_sys.Http.Routes.{RouteMap}
use atx_sys.Http.Server.{
  Request, Files, Action, call_route, reply, nothing, http_request, ev_handler, Handler, route_kill,
  http_listen,
}

-- http_s. The routes are in the map of the interface.
pub record Http (M : Type 0) : Type 0 where
  pub listening : Bool
  pub document_root : Option Bytes
  pub shutdown : Bool
  pub updater : Updater
  pub updater_progress : Progress
  pub network_config : Option Bytes
  pub routes : M

-- The kill route: what it answers, on every method.
abbrev pub kill_answer : Response
kill_answer = record {
  code = 200;
  body = codes "{\"error\":200,\"message\":\"" ++ (http_error_message (pos 200) ++ codes "\"}");
}

-- A callback's effect on the server: only the kill route has one.
abbrev pub after_action : {M : Type 0} → Action Handler → Http M → Http M
after_action (call_route route_kill method body) s = record s { shutdown = true }
after_action _ s = s

module _ (ops : RouteMap Handler) where
  open ops use {Map, empty}

  unfoldable pub http_init : Option Bytes → Http Map
  http_init nconfig = record {
    listening = false;
    document_root = none;
    shutdown = false;
    updater = atx_sys.Updater.zeroed;
    updater_progress = updater_progress_init atx_sys.Updater.Progress.zeroed;
    network_config = nconfig;
    routes = empty;
  }

  unfoldable pub http_serve : Bytes → Http Map → Http Map
  http_serve path s = record s { document_root = some path }

  -- Behind a port that could be bound. It binds again when it is already listening: the assertion there
  -- is of what was just tested.
  unfoldable pub listen : Http Map → Http Map
  listen s = record s { listening = true; routes = http_listen ops s.routes }

  -- The handles that are closed: the update's, and the progress connection's.
  unfoldable pub http_deinit : Http Map → List Call × List ℤ
  http_deinit s = ((updater_free s.updater).1, (updater_progress_free s.updater_progress).1)
