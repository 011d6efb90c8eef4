-- ===== src/Live/Parts.antt =====
-- What one request, one event of an upload and one poll of the daemon do to the device.
use mathlib.Core.Path.{subst}
use atx_sys.Common.{
  true, false, ◌≡◌, refl, sym, ap, ◌∙◌, List, [], ◌∷◌, map, Bytes, ok, bind-ok, ok-injective,
  pair-injective, Bool-cases, inl, inr,
}
use atx_sys.Updater.Progress.{Progress, Notice, updater_progress_poll}
use atx_sys.Update.{Event, Upload, Effect, update_handler}
use atx_sys.Http.Routes.{RouteMap}
use atx_sys.Http.Server.{
  Action, call_route, serve_file, serve_root, reply, nothing, Handler, route_env, route_network,
  route_kill, route_about, http_request, ev_handler,
}
use atx_sys.Http.Server.Life.{Http, after_action}
use atx_sys.Http.Broadcast.{Connection, tell_all}
use atx_sys.RouteNetwork.{Disk}
use atx_sys.Api.{Message, World, respond, perform}
use atx_sys.Live.{
  requested, uploaded, Output, answered, uploading, Host, Device, Turn, world_of, upload_of,
  with_world, with_upload, take_incoming, follow_update,
}
use atx_sys.Live.Runs.{watch}

-- What of the server no request touches: the update and its progress.
abbrev pub SameUpdate : {M : Type 0} → Http M → Http M → Type 0
SameUpdate s t = (t.updater ≡ s.updater) × (t.updater_progress ≡ s.updater_progress)

after_action-SameUpdate :
    {M : Type 0} (a : Action Handler) (s : Http M) → SameUpdate s (after_action a s)
after_action-SameUpdate (call_route route_env method body) s = (refl, refl)
after_action-SameUpdate (call_route route_network method body) s = (refl, refl)
after_action-SameUpdate (call_route route_kill method body) s = (refl, refl)
after_action-SameUpdate (call_route route_about method body) s = (refl, refl)
after_action-SameUpdate (serve_file path) s = (refl, refl)
after_action-SameUpdate (serve_root path) s = (refl, refl)
after_action-SameUpdate (reply r) s = (refl, refl)
after_action-SameUpdate nothing s = (refl, refl)

module _ (ops : RouteMap Handler) (h : Host) where
  open ops use {Map}

  -- The action that a request led to.
  pub respond-action :
      (disk : Disk) (m : Message) (w w' : World Map) (bytes : Bytes)
      → respond ops h.outside disk m w ≡ ok (w', bytes)
      → (a : Action Handler) × (ev_handler ops w.http.routes h.outside.files w.http.document_root
            (http_request m.request)
          ≡ ok a)
        × (w'.http ≡ after_action a w.http)
  unfolding respond
  respond-action disk m w w' bytes e =
      let (a, handled, acted) =
        bind-ok
          (ev_handler ops w.http.routes h.outside.files w.http.document_root
            (http_request m.request))
          _ (w', bytes) e in
      let (x, performed, last) =
        bind-ok (perform h.outside disk m a w.settings) _ (w', bytes) acted in
      (a, handled, sym (ap (λ p. p.0.http) (ok-injective last)))

  pub respond-SameUpdate :
      (disk : Disk) (m : Message) (w w' : World Map) (bytes : Bytes)
      → respond ops h.outside disk m w ≡ ok (w', bytes)
      → SameUpdate w.http w'.http
  respond-SameUpdate disk m w w' bytes e =
      let (a, handled, after) = respond-action disk m w w' bytes e in
      subst (SameUpdate w.http) (sym after) (after_action-SameUpdate a w.http)

  -- What a request that was answered leaves, and an event of an upload.
  pub requested_parts :
      (disk : Disk) (m : Message) (d d' : Device Map) (o : List Output)
      → take_incoming ops h (requested disk m) d ≡ ok (d', o)
      → (w : World Map) × (bytes : Bytes) × (respond ops h.outside disk m (world_of d)
          ≡ ok (w, bytes))
        × (with_world w d ≡ d')
        × (answered bytes ∷ [] ≡ o)
  unfolding take_incoming
  requested_parts disk m d d' o e =
      let (x, done, last) = bind-ok (respond ops h.outside disk m (world_of d)) _ (d', o) e in
      let (same, sent) = pair-injective (ok-injective last) in (x.0, x.1, done, same, sent)

  pub uploaded_parts :
      (v : Event) (d d' : Device Map) (o : List Output)
      → take_incoming ops h (uploaded v) d ≡ ok (d', o)
      → (s : Upload) × (fx : List Effect) × (update_handler (upload_of d) v ≡ ok (s, fx))
        × (with_upload s d ≡ d')
        × (map uploading fx ≡ o)
  unfolding take_incoming
  uploaded_parts v d d' o e =
      let (x, done, last) = bind-ok (update_handler (upload_of d) v) _ (d', o) e in
      let (same, did) = pair-injective (ok-injective last) in (x.0, x.1, done, same, did)

  abbrev polled_progress : Turn → Device Map → Progress × List Notice
  polled_progress t d = updater_progress_poll h.failure h.callbacks t.wire d.http.updater_progress

  abbrev pub told : Progress → List Connection → Device Map → Device Map
  told u cs d = record d { http = record d.http { updater_progress = u }; browsers = cs }

  -- With a valid environment the poll tells the browsers, and without one it does nothing.
  pub watch_valid :
      (t : Turn) (d d' : Device Map)
      → h.outside.valid ≡ true
      → watch ops h t d ≡ ok d'
      → (cs : List Connection) × (tell_all h.vsnprintf (polled_progress t d).1 d.browsers ≡ ok cs)
        × (told (polled_progress t d).0 cs d ≡ d')
  unfolding follow_update
  watch_valid t d d' v e =
      let (cs, all, last) =
        bind-ok (tell_all h.vsnprintf (polled_progress t d).1 d.browsers) _ d' (rw v at e) in
      (cs, all, ok-injective last)

  pub watch_invalid :
      (t : Turn) (d d' : Device Map) → h.outside.valid ≡ false → watch ops h t d ≡ ok d' → d ≡ d'
  watch_invalid t d d' v e = ok-injective (rw v at e)

  -- What the poll leaves alone is what `told` leaves alone.
  pub watch_keeps :
      {A : Type 0} (f : Device Map → A) (t : Turn) (d d' : Device Map)
      → ((u : Progress) (cs : List Connection) → f (told u cs d) ≡ f d)
      → watch ops h t d ≡ ok d'
      → f d' ≡ f d
  watch_keeps f t d d' same e = elim (Bool-cases h.outside.valid) [
    | inl v ↦
        let (cs, all, last) = watch_valid t d d' v e in
        sym (ap f last) ∙ same (polled_progress t d).0 cs
    | inr v ↦ sym (ap f (watch_invalid t d d' v e))
  ]
