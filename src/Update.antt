-- ===== src/Update.antt =====
-- http_route_update.c: the handler of the firmware upload, one event of the multipart parser at a time.
--
-- What mongoose and the daemon decide comes with the event: the handle that the daemon returns when
-- a part begins, and what `write` returns for a piece of data. The server passes its own state as
-- user_data, so the test for NULL there always passes.
pub mod Session
pub mod Overlap
pub mod Handles
pub mod Answers
use atx_sys.Common.{
  ℕ, ◌+◌, Bool, true, false, List, [], ◌∷◌, ◌++◌, map, if◌then◌else◌, Bytes, codes, not, ◌&&◌, ℤ,
  pos, Result, ok, fault, ◌>>=◌, decimal_as_int,
}
use atx_sys.Http.{Response}
use atx_sys.Http.Codes.{http_error_message}
use atx_sys.Updater.{
  Updater, UpdaterStatus, status_ok, status_fail, Call, updater_init, updater_write, updater_free,
  updater_active, updater_status,
}

pub data Event : Type 0 where
  multipart_request : Event
  part_begin : Bytes → ℤ → Event
  part_data : Bytes → ℤ → Event
  part_end : Bytes → Event
  multipart_request_end : Event
  other_event : Event

-- The server's updater, and what the handler sets of mongoose's structures: the part's owner, how
-- much of the last piece was consumed, and the connection's flag MG_F_SEND_AND_CLOSE.
pub record Upload : Type 0 where
  pub updater : Updater
  pub owned : Bool
  pub num_data_consumed : ℤ
  pub send_and_close : Bool

pub data Effect : Type 0 where
  called : Call → Effect
  responded : Response → Effect

abbrev pub is_ok : UpdaterStatus → Bool
is_ok status_ok = true
is_ok status_fail = false

abbrev pub upload_body : ℕ → ℕ → Bytes → Bytes
upload_body code received from =
    codes "{\"error\":\""
    ++ (http_error_message (pos code)
        ++ (codes "\",\"received\":"
            ++ (decimal_as_int received ++ (codes ",\"from\":\"" ++ (from ++ codes "\"}")))))

unfoldable pub update_handler : Upload → Event → Result (Upload × List Effect)
update_handler s multipart_request = ok (s, [])
update_handler s (part_begin file_name handle) = do
  (u, calls) ← updater_init s.updater file_name handle
  ok (record s { updater = u; owned = true }, map called calls)
update_handler s (part_data bytes written) =
    let (u, l, calls) = updater_write s.updater bytes written in
    if not (updater_active s.updater)
    then ok (s, [])
    else if not (is_ok (updater_status s.updater))
    then ok (s, [])
    else ok (record s { updater = u; num_data_consumed = l }, map called calls)
update_handler s (part_end file_name) =
    let code : ℕ = if is_ok (updater_status s.updater) then 200 else 500 in
    let (u, calls) = updater_free s.updater in
    ok (
      record s { updater = u; owned = false; send_and_close = true },
      responded (record { code = code; body = upload_body code s.updater.len file_name })
          ∷ map called calls,
    )
update_handler s multipart_request_end = ok (s, [])
update_handler s other_event = ok (s, [])

-- A stream of events.
unfoldable pub run : Upload → List Event → Result (Upload × List Effect)
run s [] = ok (s, [])
run s (e ∷ es) = do (s', fx) ← update_handler s e; (s'', rest) ← run s' es; ok (s'', fx ++ rest)
