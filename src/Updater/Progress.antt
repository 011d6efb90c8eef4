-- ===== src/Updater/Progress.antt =====
-- The progress of an update as updater_swupdate.c follows it: one message of the daemon at a time.
pub mod Follow
use atx_sys.Common.{
  ℕ, zero, suc, Bool, true, false, List, [], ◌∷◌, ◌++◌, ◌==◌, ◌%◌, not, ◌&&◌, ◌||◌, if◌then◌else◌,
  ltb, Bytes, codes, ℤ, pos, negsuc, Result, ok, fault, failed_assert, bad_read, Option, none, some,
}

-- Which callbacks are set.
pub record Callbacks : Type 0 where
  pub status : Bool
  pub source : Bool
  pub info : Bool
  pub step : Bool

pub record Progress : Type 0 where
  pub ipc : ℤ
  pub status : ℕ
  pub source : ℕ
  pub step : ℕ
  pub percent : ℕ

-- struct progress_msg, as far as it is read.
pub record Msg : Type 0 where
  pub status : ℕ
  pub source : ℕ
  pub info : Bytes
  pub cur_step : ℕ
  pub nsteps : ℕ
  pub cur_percent : ℕ
  pub cur_image : Bytes

-- A call of a callback, with the step's numbers as uint8_t, or the flag O_NONBLOCK set on a handle.
pub data Notice : Type 0 where
  on_status : ℕ → Notice
  on_source : ℕ → Notice
  on_info : Bytes → Notice
  on_step : Bytes → ℕ → ℕ → ℕ → Notice
  nonblocking : ℤ → Notice

abbrev pub zeroed : Progress
zeroed = record { ipc = pos 0; status = 0; source = 0; step = 0; percent = 0 }

abbrev pub is_positive : ℤ → Bool
is_positive (pos n) = not (n == 0)
is_positive (negsuc n) = false

-- The callbacks and their context are arguments of the poll.
unfoldable pub updater_progress_init : Progress → Progress
updater_progress_init u = zeroed

-- The handles that are closed, with the state.
unfoldable pub updater_progress_free : Progress → Progress × List ℤ
updater_progress_free u = (zeroed, if is_positive u.ipc then u.ipc ∷ [] else [])

-- What the daemon's socket gives in one poll: the handle of a new connection, or what
-- progress_ipc_receive gives on the old one, a whole message or none and the handle that it leaves.
pub record Wire : Type 0 where
  pub connect : ℤ
  pub receive : ℤ → ℤ × Option Msg

abbrev pub notify : Bool → Notice → List Notice
notify set n = if set then n ∷ [] else []

unfoldable pub take_status : ℕ → Callbacks → Msg → Progress → Progress × List Notice
take_status failure cb msg u =
    if not (msg.status == u.status) || msg.status == failure
    then (record u { status = msg.status }, notify cb.status (on_status msg.status))
    else (u, [])

unfoldable pub take_source : Callbacks → Msg → Progress → Progress × List Notice
take_source cb msg u =
    if not (msg.source == u.source)
    then (record u { source = msg.source }, notify cb.source (on_source msg.source))
    else (u, [])

abbrev pub is_nil : Bytes → Bool
is_nil [] = true
is_nil (c ∷ s) = false

unfoldable pub take_info : Callbacks → Msg → List Notice
take_info cb msg = if is_nil msg.info then [] else notify cb.info (on_info msg.info)

unfoldable pub take_step : Callbacks → Msg → Progress → Progress × List Notice
take_step cb msg u =
    if (not (msg.cur_step == u.step) || not (msg.cur_percent == u.percent))
      && not (msg.cur_step == 0)
    then (
      record u { step = msg.cur_step; percent = msg.cur_percent },
      notify cb.step (
          on_step (if msg.cur_step == 0 then [] else msg.cur_image) (msg.cur_step % 256)
            (msg.nsteps % 256) (msg.cur_percent % 256)),
    )
    else (u, [])

-- A whole message. The failure status of the daemon's header is an argument.
unfoldable pub take_msg : ℕ → Callbacks → Msg → Progress → Progress × List Notice
unfolding take_status take_source take_info take_step
take_msg failure cb msg u =
    let (u1, n1) = take_status failure cb msg u in
    let (u2, n2) = take_source cb msg u1 in
    let n3 = take_info cb msg in
    let (u4, n4) = take_step cb msg u2 in (u4, n1 ++ (n2 ++ (n3 ++ n4)))

abbrev pub take_received : ℕ → Callbacks → ℤ × Option Msg → Progress → Progress × List Notice
take_received failure cb (h, none) u = (record u { ipc = h }, [])
take_received failure cb (h, some msg) u = take_msg failure cb msg (record u { ipc = h })

unfoldable pub updater_progress_poll : ℕ → Callbacks → Wire → Progress → Progress × List Notice
updater_progress_poll failure cb wire u =
    if is_positive u.ipc then take_received failure cb (wire.receive u.ipc) u else (
      record u { ipc = wire.connect },
      if is_positive wire.connect then nonblocking wire.connect ∷ [] else [],
    )

abbrev pub status_messages : List Bytes
status_messages =
    codes "idle"
    ∷ codes "start"
    ∷ codes "run"
    ∷ codes "success"
    ∷ codes "failure"
    ∷ codes "download"
    ∷ codes "done"
    ∷ codes "subprocess"
    ∷ codes "progress"
    ∷ []

abbrev pub source_messages : List Bytes
source_messages =
    codes "unknown"
    ∷ codes "webserver"
    ∷ codes "suricatta"
    ∷ codes "downloader"
    ∷ codes "local"
    ∷ []

-- msgs[i]
abbrev pub entry_at : List Bytes → ℕ → Result Bytes
entry_at [] i = fault bad_read
entry_at (m ∷ ms) zero = ok m
entry_at (m ∷ ms) (suc i) = entry_at ms i

unfoldable pub updater_progress_status_message : ℕ → Result Bytes
updater_progress_status_message status =
    if ltb status 9 then entry_at status_messages status else fault failed_assert

unfoldable pub updater_progress_source_message : ℕ → Result Bytes
updater_progress_source_message source =
    if ltb source 5 then entry_at source_messages source else fault failed_assert
