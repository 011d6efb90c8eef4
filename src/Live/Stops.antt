-- ===== src/Live/Stops.antt =====
-- When the program's loop stops, with everything that goes on in it.
use mathlib.Core.Path.{subst}
use atx_sys.Common.{
  ℕ, zero, suc, ◌<◌, Bool, true, false, not, ◌&&◌, ◌||◌, ◌≡◌, refl, sym, ap, ◌∙◌, List, [], ◌∷◌,
  length, IsText, ok, Bool-cases, inl, inr, arith,
}
use atx_sys.Http.Routes.{RouteMap}
use atx_sys.Http.Server.{Handler, http_listen}
use atx_sys.Http.Server.Life.{after_action}
use atx_sys.Http.Server.Life.Stop.{asks_kill, stopped as killed_if, after_action-kill}
use atx_sys.Live.{
  Incoming, requested, uploaded, Signal, sigint, sighup, Output, Host, Device, Turn, after_signals,
  take_incoming, world_of, live_loop,
}
use atx_sys.Live.Runs.{Handed, none_left, handed, Ran, over, stopped, turned, live_loop-Ran}
use atx_sys.Live.Parts.{watch_keeps, requested_parts, uploaded_parts, respond-action}

abbrev pub has_sigint : List Signal → Bool
has_sigint [] = false
has_sigint (sigint ∷ ss) = true
has_sigint (sighup ∷ ss) = has_sigint ss

-- A request for the path of the kill route.
abbrev pub kills : Incoming → Bool
kills (requested disk m) = asks_kill m.request
kills (uploaded e) = false

abbrev pub any_kill : List Incoming → Bool
any_kill [] = false
any_kill (i ∷ is) = kills i || any_kill is

-- A path that the server can resolve.
abbrev pub IsShort : Incoming → Type 0
IsShort (requested disk m) = IsText m.request.uri × (length m.request.uri < 128)
IsShort (uploaded e) = Unit

abbrev pub AreShort : List Incoming → Type 0
AreShort [] = Unit
AreShort (i ∷ is) = IsShort i × AreShort is

abbrev pub AreShortTurns : List Turn → Type 0
AreShortTurns [] = Unit
AreShortTurns (t ∷ ts) = AreShort t.incoming × AreShortTurns ts

-- The rounds that are made: up to the first before whose test SIGINT came, that one left out, or the
-- first in which a request asks to stop, that one included, or all of them.
pub data StopsAfter : List Turn → ℕ → Type 0 where
  no_more : StopsAfter [] zero
  interrupted : {t : Turn} {ts : List Turn} → has_sigint t.signals ≡ true → StopsAfter (t ∷ ts) zero
  killed :
      {t : Turn} {ts : List Turn}
      → has_sigint t.signals ≡ false
      → any_kill t.incoming ≡ true
      → StopsAfter (t ∷ ts) (suc zero)
  passed :
      {t : Turn} {ts : List Turn} {n : ℕ}
      → has_sigint t.signals ≡ false
      → any_kill t.incoming ≡ false
      → StopsAfter ts n
      → StopsAfter (t ∷ ts) (suc n)

after_signals-has_sigint :
    (ss : List Signal) (running : Bool)
    → after_signals ss running ≡ (not (has_sigint ss) && running)
unfolding after_signals
after_signals-has_sigint [] true = refl
after_signals-has_sigint [] false = refl
after_signals-has_sigint (sigint ∷ ss) running = off ss
  where
    off : (ss : List Signal) → after_signals ss false ≡ false
    off [] = refl
    off (sigint ∷ ss) = off ss
    off (sighup ∷ ss) = off ss
after_signals-has_sigint (sighup ∷ ss) running = after_signals-has_sigint ss running

off_by_sigint : (a s : Bool) → s ≡ false → ((not a && true) && not s) ≡ false → a ≡ true
off_by_sigint a s up off = ground arith

on_without_sigint : (a s : Bool) → ((not a && true) && not s) ≡ true → a ≡ false
on_without_sigint a s on = ground arith

down : (r s : Bool) → s ≡ true → (r && not s) ≡ false
down r s set = ground arith

or_false : (b : Bool) → (b || false) ≡ b
or_false true = refl
or_false false = refl

module _ (ops : RouteMap Handler) (h : Host) where
  open ops use {Map, empty}

  -- The routes, and the flag that stops the loop.
  abbrev part : Device Map → Map × Bool
  part d = (d.http.routes, d.http.shutdown)

  take_incoming-kill :
      (i : Incoming) (d d' : Device Map) (o : List Output)
      → d.http.routes ≡ http_listen ops empty
      → IsShort i
      → take_incoming ops h i d ≡ ok (d', o)
      → part d' ≡ (http_listen ops empty, kills i || d.http.shutdown)
  take_incoming-kill (requested disk m) d d' o listens (text, few) e =
      let (w, bytes, done, same, sent) = requested_parts ops h disk m d d' o e in
      let (a, handled, after) = respond-action ops h disk m (world_of d) w bytes done in
      let acted : after_action a d.http ≡ killed_if (asks_kill m.request) d.http =
        after_action-kill ops h.outside.files a m.request d.http listens text few handled in
      sym (ap part same)
      ∙ ap (λ s. (s.routes, s.shutdown)) (after ∙ acted)
      ∙ ap (λ r. (r, asks_kill m.request || d.http.shutdown)) listens
  take_incoming-kill (uploaded v) d d' o listens short e =
      let (s, fx, done, same, did) = uploaded_parts ops h v d d' o e in
      sym (ap part same) ∙ ap (λ r. (r, d.http.shutdown)) listens

  or-swap : (a b c : Bool) → (b || (a || c)) ≡ ((a || b) || c)
  or-swap a b c = ground arith

  Handed-kill :
      (is : List Incoming) (d d' : Device Map) (o : List Output)
      → d.http.routes ≡ http_listen ops empty
      → AreShort is
      → Handed ops h is d d' o
      → part d' ≡ (http_listen ops empty, any_kill is || d.http.shutdown)
  Handed-kill [] d d' o listens short none_left = ap (λ r. (r, d.http.shutdown)) listens
  Handed-kill (i ∷ is) d d' o listens (short, shorts)
        (handed {d' = mid} {o = first} {rest} e later) =
      let now = take_incoming-kill i d mid first listens short e in
      Handed-kill is mid d' rest (ap (λ p. p.0) now) shorts later
      ∙ ap (λ b. (http_listen ops empty, any_kill is || b)) (ap (λ p. p.1) now)
      ∙ ap (λ b. (http_listen ops empty, b)) (or-swap (kills i) (any_kill is) d.http.shutdown)

  -- Once the flag is set no round is made.
  Ran_down :
      (ts : List Turn) (running : Bool) (d end : Device Map) (n : ℕ) (outs : List Output)
      → (running && not d.http.shutdown) ≡ false
      → Ran ops h ts running d n end outs
      → n ≡ zero
  Ran_down [] running d end n outs down over = refl
  Ran_down (t ∷ ts) running d end n outs down (stopped off) = refl
  Ran_down (t ∷ ts) running d end n outs down (turned on taken watched later) = absurd (
      cannot (has_sigint t.signals) running d.http.shutdown down (
        ap (λ b. b && not d.http.shutdown) (sym (after_signals-has_sigint t.signals running)) ∙ on))
    where
      cannot : (a r s : Bool) → (r && not s) ≡ false → ((not a && r) && not s) ≡ true → ⊥
      cannot a r s off on = ground arith

  Ran-StopsAfter :
      (ts : List Turn) (d end : Device Map) (n : ℕ) (outs : List Output)
      → d.http.routes ≡ http_listen ops empty
      → d.http.shutdown ≡ false
      → AreShortTurns ts
      → Ran ops h ts true d n end outs
      → StopsAfter ts n
  Ran-StopsAfter [] d end n outs listens up short over = no_more
  Ran-StopsAfter (t ∷ ts) d end n outs listens up short (stopped off) = interrupted (
      off_by_sigint (has_sigint t.signals) d.http.shutdown up
        (ap (λ b. b && not d.http.shutdown) (sym (after_signals-has_sigint t.signals true)) ∙ off))
  Ran-StopsAfter (t ∷ ts) d end n outs listens up (short, shorts)
        (turned {n = m} {d' = mid} {d'' = seen} {o} {rest} on taken watched later) =
      let calm : has_sigint t.signals ≡ false =
        on_without_sigint (has_sigint t.signals) d.http.shutdown (
          ap (λ b. b && not d.http.shutdown) (sym (after_signals-has_sigint t.signals true))
          ∙ on) in
      let running : after_signals t.signals true ≡ true =
        after_signals-has_sigint t.signals true ∙ ap (λ b. not b && true) calm in
      let now : part seen ≡ (http_listen ops empty, any_kill t.incoming || d.http.shutdown) =
        watch_keeps ops h part t mid seen (λ u cs. refl) watched
        ∙ Handed-kill t.incoming d mid o listens short taken in
      let flag : seen.http.shutdown ≡ any_kill t.incoming =
        ap (λ p. p.1) now
        ∙ ap (λ b. any_kill t.incoming || b) up
        ∙ or_false (any_kill t.incoming) in
      elim (Bool-cases (any_kill t.incoming)) [
        | inl kill ↦
            let none : m ≡ zero =
              Ran_down ts (after_signals t.signals true) seen end m rest
                (down (after_signals t.signals true) seen.http.shutdown (flag ∙ kill)) later in
            subst (λ k. StopsAfter (t ∷ ts) (suc k)) (sym none) (killed calm kill)
        | inr quiet ↦ passed calm quiet (
            Ran-StopsAfter ts seen end m rest (ap (λ p. p.0) now) (flag ∙ quiet) shorts
              (subst (λ b. Ran ops h ts b seen m end rest) running later))
      ]

  -- On a server with the routes of http_listen alone whose flag is not set, a run of the program's
  -- loop that does not fault, in whose rounds the paths of the requests have no NUL and fewer than
  -- 128 bytes, makes the rounds up to the first before whose test SIGINT came, that one left out, or
  -- the first in which a request asks for /api/v1/kill, that one included, or else all; SIGHUP, the
  -- uploads, the other requests and the daemon never stop it.
  pub live_loop-StopsAfter :
      (ts : List Turn) (d end : Device Map) (n : ℕ) (outs : List Output)
      → d.http.routes ≡ http_listen ops empty
      → d.http.shutdown ≡ false
      → AreShortTurns ts
      → live_loop ops h ts true d ≡ ok (n, end, outs)
      → StopsAfter ts n
  live_loop-StopsAfter ts d end n outs listens up short e =
      Ran-StopsAfter ts d end n outs listens up short (live_loop-Ran ops h ts true d end n outs e)
