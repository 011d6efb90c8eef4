-- ===== src/Live.antt =====
-- The whole server in one state: the requests, the uploads and the polls as the loop of app/main.c lets
-- them follow one another (app/main.c, http.c, http_route_update.c).
--
-- mongoose hands the requests and the events of the upload endpoint of one poll to their handlers, one
-- at a time, in any order. What it keeps of an upload (the part's owner, how much was consumed, the
-- flag to close) is what the last event set. The connections are those that stay open.
pub mod Runs
pub mod Parts
pub mod Harmless
pub mod Uploads
pub mod Returns
pub mod Whole
pub mod Stops
pub mod Durable
pub mod Keeps
pub mod Sends
pub mod Progress
use atx_sys.Common.{
  ℕ, suc, Bool, true, false, not, ◌&&◌, List, [], ◌∷◌, ◌++◌, map, Option, if◌then◌else◌, Bytes, ℤ,
  Result, ok, ◌>>=◌,
}
use atx_sys.Updater.Progress.{Callbacks, Wire, Notice, updater_progress_poll}
use atx_sys.Update.{Event, Upload, Effect, update_handler}
use atx_sys.Http.Routes.{RouteMap}
use atx_sys.Http.Server.{Handler}
use atx_sys.Http.Server.Life.{Http}
use atx_sys.Http.Broadcast.{Connection, tell_all}
use atx_sys.RouteNetwork.{Disk}
use atx_sys.Api.{Message, Outside, World, respond}

-- What mongoose hands over: a request, with what the disk does with it, or an event of an upload.
pub data Incoming : Type 0 where
  requested : Disk → Message → Incoming
  uploaded : Event → Incoming

-- The bytes of an answer, or what the handler of the uploads did.
pub data Output : Type 0 where
  answered : Bytes → Output
  uploading : Effect → Output

pub data Signal : Type 0 where
  sigint sighup : Signal

-- What is fixed: the rest of the world as a request meets it, the daemon's failure status, the
-- callbacks, and vsnprintf of a text and its length.
pub record Host : Type 0 where
  pub outside : Outside
  pub failure : ℕ
  pub callbacks : Callbacks
  pub vsnprintf : Bytes → ℕ → Result Bytes

pub record Device (M : Type 0) : Type 0 where
  pub http : Http M
  pub settings : Option Bytes
  pub owned : Bool
  pub num_data_consumed : ℤ
  pub send_and_close : Bool
  pub browsers : List Connection

-- A round of the loop: the signals that came before its test, and what the poll brings.
pub record Turn : Type 0 where
  pub signals : List Signal
  pub incoming : List Incoming
  pub wire : Wire

-- The flag `running` after the handler of a signal.
unfoldable pub ctrlc : Bool → Bool
ctrlc running = false

unfoldable pub on_sighup : Bool → Bool
on_sighup running = running

unfoldable pub after_signals : List Signal → Bool → Bool
unfolding ctrlc on_sighup
after_signals [] running = running
after_signals (sigint ∷ ss) running = after_signals ss (ctrlc running)
after_signals (sighup ∷ ss) running = after_signals ss (on_sighup running)

-- The server as the routes see it, and as the handler of the uploads does.
abbrev pub world_of : {M : Type 0} → Device M → World M
world_of d = record { http = d.http; settings = d.settings }

abbrev pub upload_of : {M : Type 0} → Device M → Upload
upload_of d = record {
  updater = d.http.updater;
  owned = d.owned;
  num_data_consumed = d.num_data_consumed;
  send_and_close = d.send_and_close;
}

abbrev pub with_world : {M : Type 0} → World M → Device M → Device M
with_world w d = record d { http = w.http; settings = w.settings }

abbrev pub with_upload : {M : Type 0} → Upload → Device M → Device M
with_upload s d = record d {
  http = record d.http { updater = s.updater };
  owned = s.owned;
  num_data_consumed = s.num_data_consumed;
  send_and_close = s.send_and_close;
}

module _ (ops : RouteMap Handler) (h : Host) where
  open ops use {Map}

  unfoldable pub take_incoming : Incoming → Device Map → Result (Device Map × List Output)
  take_incoming (requested disk m) d = do
    (w, bytes) ← respond ops h.outside disk m (world_of d)
    ok (with_world w d, answered bytes ∷ [])
  take_incoming (uploaded e) d = do
    (s, fx) ← update_handler (upload_of d) e
    ok (with_upload s d, map uploading fx)

  -- mg_mgr_poll
  unfoldable pub take_all : List Incoming → Device Map → Result (Device Map × List Output)
  take_all [] d = ok (d, [])
  take_all (i ∷ is) d = do
    (d', o) ← take_incoming i d
    (end, rest) ← take_all is d'
    ok (end, o ++ rest)

  -- updater_progress_poll with the callbacks of http.c.
  unfoldable pub follow_update : Wire → Device Map → Result (Device Map)
  follow_update wire d =
      let (u, notices) = updater_progress_poll h.failure h.callbacks wire d.http.updater_progress in
      do
        browsers' ← tell_all h.vsnprintf notices d.browsers
        ok (record d { http = record d.http { updater_progress = u }; browsers = browsers' })

  -- http_poll
  unfoldable pub poll : List Incoming → Wire → Device Map → Result (Device Map × List Output)
  unfolding follow_update
  poll is wire d = do
    (d', o) ← take_all is d
    d'' ← if h.outside.valid then follow_update wire d' else ok d'
    ok (d'', o)

  -- The rounds that are made, the server then, and what went out; `running` is the flag before.
  unfoldable pub live_loop : List Turn → Bool → Device Map → Result (ℕ × Device Map × List Output)
  live_loop [] running d = ok (0, d, [])
  live_loop (t ∷ ts) running d =
      let on : Bool = after_signals t.signals running in
      let more : Result (ℕ × Device Map × List Output) = (do
        (d', o) ← poll t.incoming t.wire d
        (n, end, rest) ← live_loop ts on d'
        ok (suc n, end, o ++ rest)) in
      if on && not d.http.shutdown then more else ok (0, d, [])
