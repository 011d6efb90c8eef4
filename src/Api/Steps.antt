-- ===== src/Api/Steps.antt =====
-- Requests one after the other, as steps of the server's state.
use mathlib.Core.Path.{subst}
use atx_sys.Common.{
  bind-ok, ok-injective, pair-injective, Bool, true, false, ◌||◌, ◌⊎◌, inl, inr, ◌≡◌, refl, sym, ap,
  ◌∙◌, List, [], ◌∷◌, Option, Bytes, ok,
}
use atx_sys.Http.Codes.{Method, get_method}
use atx_sys.Http.Routes.{RouteMap, resolve_route}
use atx_sys.Http.Server.{http_request, ev_handler, Handler}
use atx_sys.Http.Server.Life.{Http, after_action}
use atx_sys.RouteNetwork.{Disk}
use atx_sys.Api.{Message, Outside, World, perform, respond}
use atx_sys.Api.Keeps.{
  Reads, writes, AreReads, Keeps, SameServer, perform-Keeps, route_or-AreReads,
  after_action-SameServer,
}

module _ (ops : RouteMap Handler) (out : Outside) where
  open ops use {Map}

  -- A request that is answered: the state before, the message, and the state behind it.
  pub data Step : World Map → Message → World Map → Type 0 where
    answered :
        (disk : Disk) {m : Message} {w w' : World Map} (bytes : Bytes)
        → respond ops out disk m w ≡ ok (w', bytes)
        → Step w m w'

  pub data Steps : World Map → List Message → World Map → Type 0 where
    still : {w : World Map} → Steps w [] w
    next :
        {w w' w'' : World Map} {m : Message} {ms : List Message}
        → Step w m w'
        → Steps w' ms w''
        → Steps w (m ∷ ms) w''

  -- One of the messages is a PUT or a POST.
  abbrev pub any_writes : List Message → Bool
  any_writes [] = false
  any_writes (m ∷ ms) = writes (get_method m.request.method) || any_writes ms

  pub respond-SameServer :
      (disk : Disk) (m : Message) (w w' : World Map) (bytes : Bytes)
      → respond ops out disk m w ≡ ok (w', bytes)
      → SameServer w.http w'.http × (Reads (get_method m.request.method) → w'.settings ≡ w.settings)
  unfolding respond ev_handler
  respond-SameServer disk m w w' bytes h =
      let (a, handled, h2) =
        bind-ok
          (ev_handler ops w.http.routes out.files w.http.document_root (http_request m.request)) _
          (w', bytes) h in
      let (o, resolved, acts) =
        bind-ok (resolve_route ops w.http.routes m.request.uri) _ a handled in
      let (x, performed, h3) = bind-ok (perform out disk m a w.settings) _ (w', bytes) h2 in
      let before : World Map = record { http = after_action a w.http; settings = x.0 } in
      let ended : (before ≡ w') × (x.1 ≡ bytes) = pair-injective (ok-injective h3) in
      let kept : Reads (get_method m.request.method) → x.0 ≡ w.settings = λ k.
        let reads : AreReads a =
          subst AreReads (ok-injective acts)
            (route_or-AreReads out.files w.http.document_root m.request o k) in
        subst (Keeps w.settings) performed (perform-Keeps out disk m a w.settings reads) in
      (
        subst (SameServer w.http) (ap (λ v. v.http) ended.0) (after_action-SameServer a w.http),
        λ k. sym (ap (λ v. v.settings) ended.0) ∙ kept k,
      )

  pub SameServer-trans : (s t u : Http Map) → SameServer s t → SameServer t u → SameServer s u
  SameServer-trans s t u (r, d, n) (r', d', n') = (r' ∙ r, d' ∙ d, n' ∙ n)

  -- A message that only reads leaves it to the later ones.
  pub kept_or : (m : Method) (A : Type 0) → (Reads m → A) → (writes m ≡ true) ⊎ A
  kept_or Method.get A k = inr (k tt)
  kept_or Method.delete A k = inr (k tt)
  kept_or Method.put A k = inl refl
  kept_or Method.post A k = inl refl

  pub either :
      (a b : Bool) {s t u : Option Bytes}
      → (a ≡ true) ⊎ (t ≡ s)
      → (b ≡ true) ⊎ (u ≡ t)
      → ((a || b) ≡ true) ⊎ (u ≡ s)
  either a b (inl x) y = inl (rw x)
  either false b (inr x) (inl y) = inl y
  either true b (inr x) (inl y) = inl refl
  either a b (inr x) (inr y) = inr (y ∙ x)

  -- Any requests that are answered, one after the other, leave the routes, the document root and
  -- the path of the settings as they were, and the settings' file too, unless one of them is a PUT
  -- or a POST.
  pub Steps-SameServer :
      (w w' : World Map) (ms : List Message)
      → Steps w ms w'
      → SameServer w.http w'.http × ((any_writes ms ≡ true) ⊎ (w'.settings ≡ w.settings))
  Steps-SameServer w w' [] still = ((refl, refl, refl), inr refl)
  Steps-SameServer w w' (m ∷ ms) (next {w' = w''} (answered disk bytes e) later) =
      let (same, kept) = respond-SameServer disk m w w'' bytes e in
      let (same', kept') = Steps-SameServer w'' w' ms later in
      let now : (writes (get_method m.request.method) ≡ true) ⊎ (w''.settings ≡ w.settings) =
        kept_or (get_method m.request.method) _ kept in
      (
        SameServer-trans w.http w''.http w'.http same same',
        either (writes (get_method m.request.method)) (any_writes ms) now kept',
      )
