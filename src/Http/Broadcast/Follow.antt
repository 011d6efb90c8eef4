-- ===== src/Http/Broadcast/Follow.antt =====
-- From the daemon's messages to the browsers.
use atx_sys.Common.{
  not, ◌||◌, ◌&&◌, ◌==◌, ◌%◌, ℕ, ◌<◌, ◌≤◌, ◌≡◌, Bool, true, false, List, [], ◌∷◌, ◌++◌, map, length,
  Bytes, Result, ok, if◌then◌else◌,
}
use atx_sys.Http.Format.{IsPlain}
use atx_sys.Http.Broadcast.{Connection, tell_all}
use atx_sys.Http.Broadcast.Texts.{IsTellable}
use atx_sys.Http.Broadcast.Tell.{texts, AreTellable, deliver_all, tell_all-deliver_all}
use atx_sys.Updater.Progress.{
  Callbacks, Progress, Msg, Notice, on_status, on_source, on_info, on_step, notify, take_status,
  take_source, take_info, take_step, take_msg, is_nil,
}
use atx_sys.Updater.Progress.Follow.{follow}

-- A message of the daemon with values of its enumerations, and a plain info that fits.
abbrev pub IsFine : Msg → Type 0
IsFine m = (m.status < 9) × (m.source < 5) × IsPlain m.info × (length m.info ≤ 480)

abbrev pub AreFine : List Msg → Type 0
AreFine [] = Unit
AreFine (m ∷ ms) = IsFine m × AreFine ms

pub AreTellable-append :
    (ns ms : List Notice) → AreTellable ns → AreTellable ms → AreTellable (ns ++ ms)
AreTellable-append [] ms h k = k
AreTellable-append (n ∷ ns) ms (h, hs) k = (h, AreTellable-append ns ms hs k)

AreTellable-notify : (set : Bool) (n : Notice) → IsTellable n → AreTellable (notify set n)
AreTellable-notify true n h = (h, tt)
AreTellable-notify false n h = tt

AreTellable-if :
    (b : Bool) (u v : Progress) (ns : List Notice)
    → AreTellable ns
    → AreTellable (if◌then◌else◌ {A = Progress × List Notice} b (v, ns) (u, [])).1
AreTellable-if true u v ns h = h
AreTellable-if false u v ns h = tt

AreTellable-unless :
    (b : Bool) (ns : List Notice) → AreTellable ns → AreTellable (if b then [] else ns)
AreTellable-unless true ns h = tt
AreTellable-unless false ns h = h

take_status-AreTellable :
    (failure : ℕ) (cb : Callbacks) (m : Msg) (u : Progress)
    → m.status < 9
    → AreTellable (take_status failure cb m u).1
unfolding take_status
take_status-AreTellable failure cb m u h =
    AreTellable-if (not (m.status == u.status) || m.status == failure) u
      (record u { status = m.status }) (notify cb.status (on_status m.status))
      (AreTellable-notify cb.status (on_status m.status) h)

take_source-AreTellable :
    (cb : Callbacks) (m : Msg) (u : Progress) → m.source < 5 → AreTellable (take_source cb m u).1
unfolding take_source
take_source-AreTellable cb m u h =
    AreTellable-if (not (m.source == u.source)) u (record u { source = m.source })
      (notify cb.source (on_source m.source)) (AreTellable-notify cb.source (on_source m.source) h)

take_info-AreTellable :
    (cb : Callbacks) (m : Msg)
    → IsPlain m.info × (length m.info ≤ 480)
    → AreTellable (take_info cb m)
unfolding take_info
take_info-AreTellable cb m h =
    AreTellable-unless (is_nil m.info) (notify cb.info (on_info m.info))
      (AreTellable-notify cb.info (on_info m.info) h)

take_step-AreTellable : (cb : Callbacks) (m : Msg) (u : Progress) → AreTellable (take_step cb m u).1
unfolding take_step
take_step-AreTellable cb m u =
    let told : Notice =
      on_step (if m.cur_step == 0 then [] else m.cur_image) (m.cur_step % 256) (m.nsteps % 256)
        (m.cur_percent % 256) in
    AreTellable-if
      ((not (m.cur_step == u.step) || not (m.cur_percent == u.percent)) && not (m.cur_step == 0)) u
      (record u { step = m.cur_step; percent = m.cur_percent }) (notify cb.step told)
      (AreTellable-notify cb.step told tt)

pub take_msg-AreTellable :
    (failure : ℕ) (cb : Callbacks) (m : Msg) (u : Progress)
    → IsFine m
    → AreTellable (take_msg failure cb m u).1
unfolding take_msg
take_msg-AreTellable failure cb m u (status, source, plain, short) =
    let n1 = take_status failure cb m u in
    let n2 = take_source cb m n1.0 in
    let n4 = take_step cb m n2.0 in
    AreTellable-append n1.1 (n2.1 ++ (take_info cb m ++ n4.1))
      (take_status-AreTellable failure cb m u status)
      (AreTellable-append n2.1 (take_info cb m ++ n4.1) (take_source-AreTellable cb m n1.0 source) (
        AreTellable-append (take_info cb m) n4.1 (take_info-AreTellable cb m (plain, short))
          (take_step-AreTellable cb m n2.0)))

follow-AreTellable :
    (failure : ℕ) (cb : Callbacks) (ms : List Msg) (u : Progress)
    → AreFine ms
    → AreTellable (follow failure cb ms u).1
unfolding follow
follow-AreTellable failure cb [] u h = tt
follow-AreTellable failure cb (m ∷ ms) u (h, hs) =
    AreTellable-append (take_msg failure cb m u).1
      (follow failure cb ms (take_msg failure cb m u).0).1 (take_msg-AreTellable failure cb m u h)
      (follow-AreTellable failure cb ms (take_msg failure cb m u).0 hs)

module _ (vsnprintf : Bytes → ℕ → Result Bytes)
    (prints_plain : (s : Bytes) (l : ℕ) → IsPlain s → vsnprintf s l ≡ ok s) where
  -- With a vsnprintf that prints a plain text as it is, over any messages of the daemon whose
  -- statuses and sources are in their enumerations and whose infos are plain and have at most 480
  -- bytes, each callback that is called prints a text, and each websocket connection gets exactly
  -- these texts, one frame for each, in order; a connection that is no websocket gets nothing.
  pub tell_all-follow :
      (failure : ℕ) (cb : Callbacks) (ms : List Msg) (u : Progress) (cs : List Connection)
      → AreFine ms
      → let notices = (follow failure cb ms u).1 in
        (ss : List Bytes) × (texts notices ≡ ok ss)
        × (tell_all vsnprintf notices cs ≡ ok (map (deliver_all ss) cs))
  tell_all-follow failure cb ms u cs h =
      tell_all-deliver_all vsnprintf prints_plain (follow failure cb ms u).1 cs
        (follow-AreTellable failure cb ms u h)
