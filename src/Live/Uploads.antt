-- ===== src/Live/Uploads.antt =====
-- The uploads of a running server, whatever the browsers and the daemon do in between.
use mathlib.Core.Path.{subst}
use atx_sys.Common.{
  ℕ, zero, suc, Bool, false, ◌≡◌, refl, sym, ap, ◌∙◌, List, [], ◌∷◌, ◌++◌, map, append-nil,
  append_assoc, Result, ok, ◌>>=◌, bind-ok, ok-injective, pair-injective,
}
use atx_sys.Updater.{truthy, end_ipc, updater_free}
use atx_sys.Update.{Event, Upload, Effect, called, update_handler, run}
use atx_sys.Update.Handles.{
  closed-append, closed-end_ipc, held, opened, closed, Balances, run-Balances,
}
use atx_sys.Http.Routes.{RouteMap}
use atx_sys.Http.Server.{Handler}
use atx_sys.Http.Server.Life.{Http, http_deinit}
use atx_sys.Live.{
  after_signals, Incoming, requested, uploaded, Output, answered, uploading, Host, Device, Turn,
  upload_of, world_of, take_incoming, live_loop,
}
use atx_sys.Live.Runs.{Handed, none_left, handed, Ran, over, stopped, turned, live_loop-Ran}
use atx_sys.Live.Parts.{watch_keeps, requested_parts, uploaded_parts, respond-SameUpdate}

-- The events of the upload endpoint among what comes in.
abbrev pub upload_events : List Incoming → List Event
upload_events [] = []
upload_events (requested disk m ∷ is) = upload_events is
upload_events (uploaded e ∷ is) = e ∷ upload_events is

-- Those of the first n rounds.
abbrev pub events_until : ℕ → List Turn → List Event
events_until zero ts = []
events_until (suc n) [] = []
events_until (suc n) (t ∷ ts) = upload_events t.incoming ++ events_until n ts

-- What the handler of the uploads did, of all that went out.
abbrev pub effects : List Output → List Effect
effects [] = []
effects (answered b ∷ os) = effects os
effects (uploading f ∷ os) = f ∷ effects os

effects-append : (xs ys : List Output) → effects (xs ++ ys) ≡ effects xs ++ effects ys
effects-append [] ys = refl
effects-append (answered b ∷ xs) ys = effects-append xs ys
effects-append (uploading f ∷ xs) ys = ap (◌∷◌ f) (effects-append xs ys)

effects-uploading : (fx : List Effect) → effects (map uploading fx) ≡ fx
effects-uploading [] = refl
effects-uploading (f ∷ fx) = ap (◌∷◌ f) (effects-uploading fx)

run_then :
    (s s' : Upload) (fx : List Effect) (e : Event) (es : List Event)
    (r : Result (Upload × List Effect))
    → update_handler s e ≡ ok (s', fx)
    → run s' es ≡ r
    → run s (e ∷ es) ≡ (r >>= λ (s'', rest). ok (s'', fx ++ rest))
unfolding run
run_then s s' fx e es r first later = rw (first, later)

run-append :
    (es fs : List Event) (s s' s'' : Upload) (fx rest : List Effect)
    → run s es ≡ ok (s', fx)
    → run s' fs ≡ ok (s'', rest)
    → run s (es ++ fs) ≡ ok (s'', fx ++ rest)
unfolding run
run-append [] fs s s' s'' fx rest e later =
    let (same, empty) = pair-injective (ok-injective e) in rw (same, ← empty) later
run-append (e ∷ es) fs s s' s'' fx rest h later =
    let (x, first, h2) = bind-ok (update_handler s e) _ (s', fx) h in
    let (y, mid, h3) = bind-ok (run x.0 es) _ (s', fx) h2 in
    let (same, all) = pair-injective (ok-injective h3) in
    rw (first, run-append es fs x.0 y.0 s'' y.1 rest mid (rw same later), ← all, append_assoc)

module _ (ops : RouteMap Handler) (h : Host) where
  open ops use {Map}

  take_incoming-run :
      (i : Incoming) (d d' : Device Map) (o : List Output)
      → take_incoming ops h i d ≡ ok (d', o)
      → run (upload_of d) (upload_events (i ∷ [])) ≡ ok (upload_of d', effects o)
  unfolding run
  take_incoming-run (requested disk m) d d' o e =
      let (w, bytes, done, same, sent) = requested_parts ops h disk m d d' o e in
      let (u, p) = respond-SameUpdate ops h disk m (world_of d) w bytes done in
      rw (← same, ← sent, u)
  take_incoming-run (uploaded v) d d' o e =
      let (s, fx, done, same, did) = uploaded_parts ops h v d d' o e in
      rw (done, ← same, ← did, effects-uploading fx, append-nil)

  upload_events-cons :
      (i : Incoming) (is : List Incoming)
      → upload_events (i ∷ is) ≡ upload_events (i ∷ []) ++ upload_events is
  upload_events-cons (requested disk m) is = refl
  upload_events-cons (uploaded v) is = refl

  Handed-run :
      (is : List Incoming) (d d' : Device Map) (o : List Output)
      → Handed ops h is d d' o
      → run (upload_of d) (upload_events is) ≡ ok (upload_of d', effects o)
  unfolding run
  Handed-run [] d d' o none_left = refl
  Handed-run (i ∷ is) d d' o (handed {d' = mid} {o = first} {rest} e later) =
      rw (upload_events-cons i is, effects-append first rest)
        (run-append (upload_events (i ∷ [])) (upload_events is) (upload_of d) (upload_of mid)
          (upload_of d') (effects first) (effects rest) (take_incoming-run i d mid first e)
          (Handed-run is mid d' rest later))

  Ran-run :
      (ts : List Turn) (running : Bool) (d end : Device Map) (n : ℕ) (outs : List Output)
      → Ran ops h ts running d n end outs
      → run (upload_of d) (events_until n ts) ≡ ok (upload_of end, effects outs)
  unfolding run
  Ran-run [] running d end n outs over = refl
  Ran-run (t ∷ ts) running d end n outs (stopped off) = refl
  Ran-run (t ∷ ts) running d end n outs
        (turned {n = m} {d' = mid} {d'' = seen} {o} {rest} on taken watched later) =
      let same : upload_of seen ≡ upload_of mid =
        watch_keeps ops h upload_of t mid seen (λ u cs. refl) watched in
      rw (effects-append o rest) (
        run-append (upload_events t.incoming) (events_until m ts) (upload_of d) (upload_of mid)
          (upload_of end) (effects o) (effects rest) (Handed-run t.incoming d mid o taken)
          (rw same at (Ran-run ts (after_signals t.signals running) seen end m rest later)))

  -- Whatever requests, polls and signals come in between, a run of the program's loop that does not
  -- fault leaves the uploads as the events of the upload endpoint alone do, those of the rounds
  -- made, in their order, with the same calls of the daemon and the same answers.
  pub live_loop-run :
      (ts : List Turn) (running : Bool) (d end : Device Map) (n : ℕ) (outs : List Output)
      → live_loop ops h ts running d ≡ ok (n, end, outs)
      → run (upload_of d) (events_until n ts) ≡ ok (upload_of end, effects outs)
  live_loop-run ts running d end n outs e =
      Ran-run ts running d end n outs (live_loop-Ran ops h ts running d end n outs e)

  deinit-closed :
      (fx : List Effect) (s : Http Map)
      → closed fx ++ held s.updater.ipc ≡ closed (fx ++ map called (http_deinit ops s).0)
  unfolding http_deinit updater_free
  deinit-closed fx s =
      let ends : closed (map called (end_ipc s.updater)) ≡ held s.updater.ipc =
        rw (← append-nil (end_ipc s.updater), closed-end_ipc s.updater []) (append-nil _) in
      sym (closed-append fx (map called (end_ipc s.updater)) ∙ ap (λ l. closed fx ++ l) ends)

  -- From a server that holds no handle, over any run of the program's loop that does not fault and
  -- with http_deinit behind it, the daemon's handles that were opened are exactly those that are
  -- ended, each once and in the order of their opening, also where an upload was cut off. The
  -- handle 0 stands for none.
  pub live_loop-handles :
      (ts : List Turn) (running : Bool) (d end : Device Map) (n : ℕ) (outs : List Output)
      → truthy d.http.updater.ipc ≡ false
      → live_loop ops h ts running d ≡ ok (n, end, outs)
      → opened (effects outs) ≡ closed (effects outs ++ map called (http_deinit ops end.http).0)
  live_loop-handles ts running d end n outs idle e =
      let balance : Balances (upload_of d) (ok (upload_of end, effects outs)) =
        subst (Balances (upload_of d)) (live_loop-run ts running d end n outs e)
          (run-Balances (upload_of d) (events_until n ts)) in
      let none : held d.http.updater.ipc ≡ [] = rw idle in
      ap (λ l. l ++ opened (effects outs)) (sym none)
      ∙ balance
      ∙ deinit-closed (effects outs) end.http
