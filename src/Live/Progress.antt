-- ===== src/Live/Progress.antt =====
-- What the browsers are told of an update, whatever requests and uploads come in between.
use mathlib.Core.Path.{subst}
use atx_sys.Common.{
  false, ok-injective, none, some, Option, ℤ, Bool-cases, inl, inr, if◌then◌else◌, ℕ, zero, suc,
  Bool, true, ◌≡◌, refl, sym, ap, ◌∙◌, List, [], ◌∷◌, ◌++◌, map, Bytes, Result, ok, fault, ◌>>=◌,
}
use atx_sys.Updater.Progress.{
  Msg, is_positive, take_received, Callbacks, Progress, Wire, Notice, updater_progress_poll,
}
use atx_sys.Http.Format.{IsPlain}
use atx_sys.Http.Routes.{RouteMap}
use atx_sys.Http.Server.{Handler}
use atx_sys.Http.Broadcast.{Connection, updater_progress, tell_all}
use atx_sys.Http.Broadcast.Follow.{IsFine, AreTellable-append, take_msg-AreTellable}
use atx_sys.Http.Broadcast.Tell.{texts, AreTellable, deliver_all, tell_all-deliver_all}
use atx_sys.Live.{
  Incoming, requested, uploaded, Output, Host, Device, Turn, after_signals, take_incoming, world_of,
  live_loop,
}
use atx_sys.Live.Runs.{Handed, none_left, handed, Ran, over, stopped, turned, watch, live_loop-Ran}
use atx_sys.Live.Parts.{watch_valid, requested_parts, uploaded_parts, respond-SameUpdate}

-- The polls of the daemon in the first n rounds, by themselves.
unfoldable pub polls : ℕ → Callbacks → ℕ → List Turn → Progress → Progress × List Notice
polls failure cb zero ts u = (u, [])
polls failure cb (suc n) [] u = (u, [])
polls failure cb (suc n) (t ∷ ts) u =
    let (u', now) = updater_progress_poll failure cb t.wire u in
    let (u'', later) = polls failure cb n ts u' in (u'', now ++ later)

bind_assoc :
    {A B C : Type 0} (r : Result A) (f : A → Result B) (g : B → Result C) (k : A → Result C)
    → ((a : A) → k a ≡ (f a >>= g))
    → (r >>= k) ≡ ((r >>= f) >>= g)
bind_assoc (ok a) f g k e = e a
bind_assoc (fault x) f g k e = refl

pub tell_all-append :
    (vsnprintf : Bytes → ℕ → Result Bytes) (xs ys : List Notice) (cs : List Connection)
    → tell_all vsnprintf (xs ++ ys) cs ≡ (tell_all vsnprintf xs cs >>= tell_all vsnprintf ys)
unfolding tell_all
tell_all-append vsnprintf [] ys cs = refl
tell_all-append vsnprintf (x ∷ xs) ys cs =
    bind_assoc (updater_progress vsnprintf x cs) (tell_all vsnprintf xs) (tell_all vsnprintf ys)
      (tell_all vsnprintf (xs ++ ys)) (tell_all-append vsnprintf xs ys)

-- A whole message that the callbacks can tell, whatever the connection's handle is.
abbrev pub Received : ℤ × Option Msg → Type 0
Received (k, none) = Unit
Received (k, some m) = IsFine m

abbrev pub AreFineWires : List Turn → Type 0
AreFineWires [] = Unit
AreFineWires (t ∷ ts) = ((k : ℤ) → Received (t.wire.receive k)) × AreFineWires ts

Received-AreTellable :
    (failure : ℕ) (cb : Callbacks) (r : ℤ × Option Msg) (u : Progress)
    → Received r
    → AreTellable (take_received failure cb r u).1
Received-AreTellable failure cb (k, none) u fine = tt
Received-AreTellable failure cb (k, some m) u fine =
    take_msg-AreTellable failure cb m (record u { ipc = k }) fine

connected-AreTellable :
    (b : Bool) (k : ℤ) → AreTellable (if b then Notice.nonblocking k ∷ [] else [])
connected-AreTellable true k = (tt, tt)
connected-AreTellable false k = tt

pub poll-AreTellable :
    (failure : ℕ) (cb : Callbacks) (wire : Wire) (u : Progress)
    → ((k : ℤ) → Received (wire.receive k))
    → AreTellable (updater_progress_poll failure cb wire u).1
unfolding updater_progress_poll
poll-AreTellable failure cb wire u fine = elim (Bool-cases (is_positive u.ipc)) [
  | inl open_already ↦
      rw open_already (Received-AreTellable failure cb (wire.receive u.ipc) u (fine u.ipc))
  | inr closed ↦ rw closed (connected-AreTellable (is_positive wire.connect) wire.connect)
]

polls-AreTellable :
    (failure : ℕ) (cb : Callbacks) (n : ℕ) (ts : List Turn) (u : Progress)
    → AreFineWires ts
    → AreTellable (polls failure cb n ts u).1
unfolding polls
polls-AreTellable failure cb zero ts u fine = tt
polls-AreTellable failure cb (suc n) [] u fine = tt
polls-AreTellable failure cb (suc n) (t ∷ ts) u (fine, rest) =
    let p = updater_progress_poll failure cb t.wire u in
    AreTellable-append p.1 (polls failure cb n ts p.0).1 (poll-AreTellable failure cb t.wire u fine)
      (polls-AreTellable failure cb n ts p.0 rest)

-- The progress, and the connections.
abbrev pub watching : {M : Type 0} → Device M → Progress × List Connection
watching d = (d.http.updater_progress, d.browsers)

module _ (ops : RouteMap Handler) (h : Host) where
  open ops use {Map}

  take_incoming-watching :
      (i : Incoming) (d d' : Device Map) (o : List Output)
      → take_incoming ops h i d ≡ ok (d', o)
      → watching d' ≡ watching d
  take_incoming-watching (requested disk m) d d' o e =
      let (w, bytes, done, same, sent) = requested_parts ops h disk m d d' o e in
      let (u, p) = respond-SameUpdate ops h disk m (world_of d) w bytes done in
      sym (ap watching same) ∙ ap (λ x. (x, d.browsers)) p
  take_incoming-watching (uploaded v) d d' o e =
      let (s, fx, done, same, did) = uploaded_parts ops h v d d' o e in sym (ap watching same)

  Handed-watching :
      (is : List Incoming) (d d' : Device Map) (o : List Output)
      → Handed ops h is d d' o
      → watching d' ≡ watching d
  Handed-watching [] d d' o none_left = refl
  Handed-watching (i ∷ is) d d' o (handed {d' = mid} {o = first} {rest} e later) =
      Handed-watching is mid d' rest later ∙ take_incoming-watching i d mid first e

  -- The progress at the end, and the connections after all notices.
  abbrev Told : Progress × List Connection → ℕ → List Turn → Device Map → Type 0
  Told (u, cs) n ts end =
      let (u', notices) = polls h.failure h.callbacks n ts u in
      (end.http.updater_progress ≡ u') × (tell_all h.vsnprintf notices cs ≡ ok end.browsers)

  Told-cons :
      (t : Turn) (ts : List Turn) (n : ℕ) (mid seen end : Device Map)
      → h.outside.valid ≡ true
      → watch ops h t mid ≡ ok seen
      → Told (watching seen) n ts end
      → Told (watching mid) (suc n) (t ∷ ts) end
  unfolding polls
  Told-cons t ts n mid seen end v watched later =
      let (cs, all, last) = watch_valid ops h t mid seen v watched in
      let p : Progress × List Notice =
        updater_progress_poll h.failure h.callbacks t.wire mid.http.updater_progress in
      let rest : List Notice = (polls h.failure h.callbacks n ts p.0).1 in
      let (u, told_rest) = subst (λ x. Told x n ts end) (sym (ap watching last)) later in
      (
        u,
        tell_all-append h.vsnprintf p.1 rest mid.browsers
            ∙ ap (λ r. r >>= tell_all h.vsnprintf rest) all
            ∙ told_rest,
      )

  Ran-Told :
      (ts : List Turn) (running : Bool) (d end : Device Map) (n : ℕ) (outs : List Output)
      → h.outside.valid ≡ true
      → Ran ops h ts running d n end outs
      → Told (watching d) n ts end
  unfolding polls tell_all
  Ran-Told [] running d end n outs v over = (refl, refl)
  Ran-Told (t ∷ ts) running d end n outs v (stopped off) = (refl, refl)
  Ran-Told (t ∷ ts) running d end n outs v
        (turned {n = m} {d' = mid} {d'' = seen} {o} {rest} on taken watched later) =
      subst (λ x. Told x (suc m) (t ∷ ts) end) (Handed-watching t.incoming d mid o taken)
        (Told-cons t ts m mid seen end v watched
          (Ran-Told ts (after_signals t.signals running) seen end m rest v later))

  -- With a valid environment, a vsnprintf that prints a plain text as it is, and messages of the
  -- daemon whose statuses and sources are in their enumerations and whose infos are plain and have
  -- at most 480 bytes, over a run of the program's loop that does not fault, each websocket
  -- connection has got exactly the texts of the callbacks that the polls of the rounds made call by
  -- themselves, one frame for each that is not empty, in order, and each other connection nothing,
  -- whatever requests, uploads and signals come in between.
  pub live_loop-browsers :
      (ts : List Turn) (running : Bool) (d end : Device Map) (n : ℕ) (outs : List Output)
      → ((s : Bytes) (l : ℕ) → IsPlain s → h.vsnprintf s l ≡ ok s)
      → AreFineWires ts
      → h.outside.valid ≡ true
      → live_loop ops h ts running d ≡ ok (n, end, outs)
      → let (u, notices) = polls h.failure h.callbacks n ts d.http.updater_progress in
        (ss : List Bytes) × (texts notices ≡ ok ss)
        × (end.browsers ≡ map (deliver_all ss) d.browsers)
        × (end.http.updater_progress ≡ u)
  live_loop-browsers ts running d end n outs prints_plain fine v e =
      let notices = (polls h.failure h.callbacks n ts d.http.updater_progress).1 in
      let (progress, sent) =
        Ran-Told ts running d end n outs v (live_loop-Ran ops h ts running d end n outs e) in
      let (ss, printed, delivered) =
        tell_all-deliver_all h.vsnprintf prints_plain notices d.browsers
          (polls-AreTellable h.failure h.callbacks n ts d.http.updater_progress fine) in
      (ss, printed, ok-injective (sym sent ∙ delivered), progress)
