-- ===== src/Live/Keeps.antt =====
-- What of a running server only its routes' writes change.
use mathlib.Core.Path.{subst}
use atx_sys.Common.{
  ℕ, zero, suc, Bool, true, false, ◌||◌, ◌⊎◌, inr, ◌≡◌, refl, sym, ap, List, [], ◌∷◌, Option, Bytes,
  ok,
}
use atx_sys.Http.Codes.{get_method}
use atx_sys.Http.Routes.{RouteMap}
use atx_sys.Http.Server.{Handler}
use atx_sys.Api.Keeps.{writes, SameServer}
use atx_sys.Api.Steps.{respond-SameServer, SameServer-trans, kept_or, either}
use atx_sys.Live.{
  Incoming, requested, uploaded, Output, Host, Device, Turn, after_signals, take_incoming, world_of,
  live_loop,
}
use atx_sys.Live.Runs.{Handed, none_left, handed, Ran, over, stopped, turned, live_loop-Ran}
use atx_sys.Live.Parts.{watch_keeps, requested_parts, uploaded_parts}

-- A PUT or a POST to the server's routes is among what comes in.
abbrev pub any_write : List Incoming → Bool
any_write [] = false
any_write (requested disk m ∷ is) = writes (get_method m.request.method) || any_write is
any_write (uploaded e ∷ is) = any_write is

-- Among what comes in in the first n rounds.
abbrev pub writes_until : ℕ → List Turn → Bool
writes_until zero ts = false
writes_until (suc n) [] = false
writes_until (suc n) (t ∷ ts) = any_write t.incoming || writes_until n ts

or_false : (b : Bool) → (b || false) ≡ b
or_false true = refl
or_false false = refl

-- The routes, the root and the settings' path stay, and so do the settings unless they were written.
abbrev pub Settled : {M : Type 0} → Bool → Device M → Device M → Type 0
Settled written d e = SameServer d.http e.http × ((written ≡ true) ⊎ (e.settings ≡ d.settings))

module _ (ops : RouteMap Handler) (h : Host) where
  open ops use {Map}

  Settled-trans :
      (a b : Bool) (d e f : Device Map) → Settled a d e → Settled b e f → Settled (a || b) d f
  Settled-trans a b d e f (same, kept) (same', kept') = (
    SameServer-trans ops h.outside d.http e.http f.http same same',
    either ops h.outside a b kept kept',
  )

  requested-Settled :
      (disk : atx_sys.RouteNetwork.Disk) (m : atx_sys.Api.Message) (d d' : Device Map)
      (o : List Output)
      → take_incoming ops h (requested disk m) d ≡ ok (d', o)
      → Settled (writes (get_method m.request.method)) d d'
  requested-Settled disk m d d' o e =
      let (w, bytes, done, same, sent) = requested_parts ops h disk m d d' o e in
      let (server, kept) = respond-SameServer ops h.outside disk m (world_of d) w bytes done in
      subst (Settled (writes (get_method m.request.method)) d) same
        (server, kept_or ops h.outside (get_method m.request.method) _ kept)

  uploaded-Settled :
      (v : atx_sys.Update.Event) (d d' : Device Map) (o : List Output)
      → take_incoming ops h (uploaded v) d ≡ ok (d', o)
      → Settled false d d'
  uploaded-Settled v d d' o e =
      let (s, fx, done, same, did) = uploaded_parts ops h v d d' o e in
      subst (Settled false d) same ((refl, refl, refl), inr refl)

  pub take_incoming-Settled :
      (i : Incoming) (d d' : Device Map) (o : List Output)
      → take_incoming ops h i d ≡ ok (d', o)
      → Settled (any_write (i ∷ [])) d d'
  take_incoming-Settled (requested disk m) d d' o e =
      subst (λ b. Settled b d d') (sym (or_false (writes (get_method m.request.method))))
        (requested-Settled disk m d d' o e)
  take_incoming-Settled (uploaded v) d d' o e = uploaded-Settled v d d' o e

  pub Handed-Settled :
      (is : List Incoming) (d d' : Device Map) (o : List Output)
      → Handed ops h is d d' o
      → Settled (any_write is) d d'
  Handed-Settled [] d d' o none_left = ((refl, refl, refl), inr refl)
  Handed-Settled (requested disk m ∷ is) d d' o (handed {d' = mid} {o = first} {rest} e later) =
      Settled-trans (writes (get_method m.request.method)) (any_write is) d mid d'
        (requested-Settled disk m d mid first e) (Handed-Settled is mid d' rest later)
  Handed-Settled (uploaded v ∷ is) d d' o (handed {d' = mid} {o = first} {rest} e later) =
      Settled-trans false (any_write is) d mid d' (uploaded-Settled v d mid first e)
        (Handed-Settled is mid d' rest later)

  -- The server's own fields, apart from the progress.
  abbrev settled_part : Device Map → Map × Option Bytes × Option Bytes × Option Bytes
  settled_part d = (d.http.routes, d.http.document_root, d.http.network_config, d.settings)

  Ran-Settled :
      (ts : List Turn) (running : Bool) (d end : Device Map) (n : ℕ) (outs : List Output)
      → Ran ops h ts running d n end outs
      → Settled (writes_until n ts) d end
  Ran-Settled [] running d end n outs over = ((refl, refl, refl), inr refl)
  Ran-Settled (t ∷ ts) running d end n outs (stopped off) = ((refl, refl, refl), inr refl)
  Ran-Settled (t ∷ ts) running d end n outs
        (turned {n = m} {d' = mid} {d'' = seen} {o} {rest} on taken watched later) =
      let same : settled_part seen ≡ settled_part mid =
        watch_keeps ops h settled_part t mid seen (λ u cs. refl) watched in
      let watch_Settled : Settled false mid seen =
        ((ap (λ p. p.0) same, ap (λ p. p.1) same, ap (λ p. p.2) same), inr (ap (λ p. p.3) same)) in
      Settled-trans (any_write t.incoming) (writes_until m ts) d mid end
        (Handed-Settled t.incoming d mid o taken)
        (Settled-trans false (writes_until m ts) mid seen end watch_Settled
          (Ran-Settled ts (after_signals t.signals running) seen end m rest later))

  -- A run of the program's loop that does not fault leaves the routes, the document root and the
  -- path of the settings as they were, and the settings' file too, unless a request of the rounds
  -- made has a method that begins with "P", each of which the code takes for a PUT or a POST,
  -- whatever uploads, polls and signals come in between.
  pub live_loop-Settled :
      (ts : List Turn) (running : Bool) (d end : Device Map) (n : ℕ) (outs : List Output)
      → live_loop ops h ts running d ≡ ok (n, end, outs)
      → Settled (writes_until n ts) d end
  live_loop-Settled ts running d end n outs e =
      Ran-Settled ts running d end n outs (live_loop-Ran ops h ts running d end n outs e)
