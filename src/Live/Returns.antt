-- ===== src/Live/Returns.antt =====
-- Runs of the loop that cannot fault.
use atx_sys.Common.{
  IsOk, ok_value, IsOk-bind, IsOk-if, eq-IsOk, ℤ, ℕ, zero, Bool, true, false, ◌≡◌, refl, ◌∙◌, List,
  [], ◌∷◌, Bytes, ok,
}
use atx_sys.Updater.Progress.{updater_progress_poll}
use atx_sys.Update.{update_handler}
use atx_sys.Http.Format.{IsPlain}
use atx_sys.Http.Routes.{RouteMap, lookup}
use atx_sys.Http.Broadcast.{tell_all}
use atx_sys.Http.Server.{Handler, http_listen}
use atx_sys.Http.Server.Table.{table}
use atx_sys.Http.Broadcast.Tell.{tell_all-deliver_all}
use atx_sys.RouteNetwork.{Disk}
use atx_sys.Api.{Message, World, respond}
use atx_sys.Api.Network.{Listens}
use atx_sys.Api.Answers.{ev_handler-table}
use atx_sys.Live.{
  Incoming, requested, uploaded, Output, Host, Device, Turn, after_signals, world_of, upload_of,
  take_incoming, take_all, follow_update, poll, live_loop,
}
use atx_sys.Live.Runs.{poll_parts, goes_on, watch}
use atx_sys.Live.Parts.{watch_keeps}
use atx_sys.Live.Keeps.{Handed-Settled, take_incoming-Settled}
use atx_sys.Live.Stops.{StopsAfter, live_loop-StopsAfter}
use atx_sys.Live.Progress.{Received, AreFineWires, poll-AreTellable}
use atx_sys.Live.Harmless.{
  IsHarmless, AreHarmless, AreHarmlessTurns, update_handler-IsOk, perform-IsOk,
  AreHarmlessTurns-AreShortTurns,
}

module _ (ops : RouteMap Handler) (h : Host) where
  open ops use {Map, empty}

  respond-IsOk :
      (disk : Disk) (m : Message) (w : World Map)
      → Listens ops w
      → IsHarmless (requested disk m)
      → IsOk (respond ops h.outside disk m w)
  unfolding respond
  respond-IsOk disk m w listens (text, short, fixed) =
      rw (ev_handler-table ops h.outside m w (lookup m.request.uri table) listens text short refl) (
        IsOk-bind _ _
          (perform-IsOk h.outside disk m w.http.document_root w.settings
            (lookup m.request.uri table) fixed)
          (λ x e. tt))

  take_incoming-IsOk :
      (i : Incoming) (d : Device Map)
      → Listens ops (world_of d)
      → IsHarmless i
      → IsOk (take_incoming ops h i d)
  unfolding take_incoming
  take_incoming-IsOk (requested disk m) d listens harmless =
      IsOk-bind (respond ops h.outside disk m (world_of d)) _
        (respond-IsOk disk m (world_of d) listens harmless) (λ x e. tt)
  take_incoming-IsOk (uploaded v) d listens harmless =
      IsOk-bind (update_handler (upload_of d) v) _ (update_handler-IsOk (upload_of d) v harmless)
        (λ x e. tt)

  -- The routes stay, so that the next request is harmless too.
  still-Listens :
      (i : Incoming) (d d' : Device Map) (o : List Output)
      → Listens ops (world_of d)
      → take_incoming ops h i d ≡ ok (d', o)
      → Listens ops (world_of d')
  still-Listens i d d' o listens e =
      let (same, kept) = take_incoming-Settled ops h i d d' o e in same.0 ∙ listens

  take_all-IsOk :
      (is : List Incoming) (d : Device Map)
      → Listens ops (world_of d)
      → AreHarmless is
      → IsOk (take_all ops h is d)
  unfolding take_all
  take_all-IsOk [] d listens harmless = tt
  take_all-IsOk (i ∷ is) d listens (harmless, rest) =
      IsOk-bind (take_incoming ops h i d) _ (take_incoming-IsOk i d listens harmless) (λ x e.
        IsOk-bind (take_all ops h is x.0) _
          (take_all-IsOk is x.0 (still-Listens i d x.0 x.1 listens e) rest) (λ y f. tt))

  poll-Listens :
      (t : Turn) (d d' : Device Map) (o : List Output)
      → Listens ops (world_of d)
      → poll ops h t.incoming t.wire d ≡ ok (d', o)
      → Listens ops (world_of d')
  poll-Listens t d d' o listens e =
      let (mid, taken, watched) = poll_parts ops h t d d' o e in
      let (same, kept) = Handed-Settled ops h t.incoming d mid o taken in
      watch_keeps ops h (λ x. x.http.routes) t mid d' (λ u cs. refl) watched ∙ same.0 ∙ listens

  module _ (prints_plain : (s : Bytes) (l : ℕ) → IsPlain s → h.vsnprintf s l ≡ ok s) where
    follow_update-IsOk :
        (t : Turn) (d : Device Map)
        → ((k : ℤ) → Received (t.wire.receive k))
        → IsOk (follow_update ops h t.wire d)
    unfolding follow_update
    follow_update-IsOk t d fine =
        let (ss, printed, sent) =
          tell_all-deliver_all h.vsnprintf prints_plain
            (updater_progress_poll h.failure h.callbacks t.wire d.http.updater_progress).1
            d.browsers
            (poll-AreTellable h.failure h.callbacks t.wire d.http.updater_progress fine) in
        IsOk-bind
          (tell_all h.vsnprintf
            (updater_progress_poll h.failure h.callbacks t.wire d.http.updater_progress).1
            d.browsers)
          _ (eq-IsOk _ sent) (λ x e. tt)

    poll-IsOk :
        (t : Turn) (d : Device Map)
        → Listens ops (world_of d)
        → AreHarmless t.incoming
        → ((k : ℤ) → Received (t.wire.receive k))
        → IsOk (poll ops h t.incoming t.wire d)
    unfolding poll
    poll-IsOk t d listens harmless fine =
        IsOk-bind (take_all ops h t.incoming d) _ (take_all-IsOk t.incoming d listens harmless)
          (λ x e.
            IsOk-bind (watch ops h t x.0) _
              (IsOk-if h.outside.valid _ (ok x.0) (follow_update-IsOk t x.0 fine) tt) (λ y f. tt))

    live_loop-IsOk :
        (ts : List Turn) (running : Bool) (d : Device Map)
        → Listens ops (world_of d)
        → AreHarmlessTurns ts
        → AreFineWires ts
        → IsOk (live_loop ops h ts running d)
    unfolding live_loop
    live_loop-IsOk [] running d listens harmless fine = tt
    live_loop-IsOk (t ∷ ts) running d listens (harmless, later) (fine, rest) =
        IsOk-if (goes_on ops h t running d) _ (ok (zero, d, []))
          (IsOk-bind (poll ops h t.incoming t.wire d) _ (poll-IsOk t d listens harmless fine)
            (λ x e.
              IsOk-bind (live_loop ops h ts (after_signals t.signals running) x.0) _
                (live_loop-IsOk ts (after_signals t.signals running) x.0
                  (poll-Listens t d x.0 x.1 listens e) later rest)
                (λ y f. tt)))
          tt

    -- With a vsnprintf that prints a plain text as it is, on a server with the routes of
    -- http_listen alone whose flag is not set, the program's loop returns, and makes the rounds up
    -- to the first before whose test SIGINT came, that one left out, or the first in which a
    -- request asks for /api/v1/kill, that one included, or else all; when each request has a path
    -- without a NUL, of fewer than 128 bytes, that is not that of the settings or of the
    -- environment, the daemon gives a handle for each part that begins, and the statuses and
    -- sources of its messages are in their enumerations and their infos plain, of at most 480
    -- bytes.
    pub live_loop_returns :
        (ts : List Turn) (d : Device Map)
        → d.http.routes ≡ http_listen ops empty
        → d.http.shutdown ≡ false
        → AreHarmlessTurns ts
        → AreFineWires ts
        → (n : ℕ) × (end : Device Map) × (outs : List Output) × (live_loop ops h ts true d
            ≡ ok (n, end, outs))
          × StopsAfter ts n
    live_loop_returns ts d listens up harmless fine =
        let ((n, end, outs), e) =
          ok_value (live_loop ops h ts true d) (live_loop-IsOk ts true d listens harmless fine) in
        (
          n,
          end,
          outs,
          e,
          live_loop-StopsAfter ops h ts d end n outs listens up
              (AreHarmlessTurns-AreShortTurns ts harmless) e,
        )
