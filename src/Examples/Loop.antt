-- ===== src/Examples/Loop.antt =====
-- A server that listens.
use atx_sys.Common.{refl, List, [], ◌∷◌, none, some, Bytes, pos, false}
use atx_sys.Updater.Progress.{Wire}
use atx_sys.Http.Routes.{RouteMap, lookup}
use atx_sys.Http.Server.{Files, Handler}
use atx_sys.Http.Server.Life.{Http, http_init, listen}

abbrev pub listed : RouteMap Handler
listed = record {
  Map = List (Bytes × Handler);
  empty = [];
  get = λ m k. lookup k m;
  entries = λ m. m;
  add = λ m k r. (k, r) ∷ m;
  get-empty = λ k. refl;
  get-entries = λ m k. refl;
  get-add = λ m k j r. refl;
}

abbrev pub server : Http (List (Bytes × Handler))
server = listen listed (http_init listed none)

abbrev pub silent : Wire
silent = record { connect = pos 0; receive = λ h. (h, none) }

abbrev pub files : Files
files = record { parse_uri = λ u. some u; exists = λ p. false }
