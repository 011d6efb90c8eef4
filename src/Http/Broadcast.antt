-- ===== src/Http/Broadcast.antt =====
-- http.c: what the server tells the browsers of an update's progress.
--
-- A connection is a flag of mongoose and the text frames that were put on it. The text of a broadcast
-- is what vsnprintf makes of a format and its arguments; its length is below 2^31.
pub mod Deliver
pub mod Texts
pub mod Tell
pub mod Follow
use atx_sys.Common.{
  ℕ, Bool, List, [], ◌∷◌, ◌++◌, ◌==◌, ltb, if◌then◌else◌, length, take, Bytes, codes, decimal,
  Result, ok, fault, bad_read, ◌>>=◌,
}
use atx_sys.Updater.Progress.{
  Notice, on_status, on_source, on_info, on_step, nonblocking, updater_progress_status_message,
  updater_progress_source_message,
}
use atx_sys.Http.Server.{into_512}

-- is_websocket, and the payloads of the frames.
pub record Connection : Type 0 where
  pub is_websocket : Bool
  pub frames : List Bytes

-- mg_send_websocket_frame reads `len` bytes.
abbrev pub send_frame : Bytes → ℕ → Connection → Result Connection
send_frame mem len c =
    let sent : Connection = record c { frames = c.frames ++ take len mem ∷ [] } in
    if ltb (length mem) len then fault bad_read else ok sent

unfoldable pub send_frames : Bytes → ℕ → List Connection → Result (List Connection)
send_frames mem len [] = ok []
send_frames mem len (c ∷ cs) = do
  c' ← if c.is_websocket then send_frame mem len c else ok c
  cs' ← send_frames mem len cs
  ok (c' ∷ cs')

-- vsnprintf writes at most 1023 bytes and the NUL; what stands behind it was never set.
unfoldable pub http_broadcast_json : Bytes → List Connection → Result (List Connection)
unfolding send_frames
http_broadcast_json text cs =
    if length text == 0 then ok cs else send_frames (take 1023 text ++ 0 ∷ []) (length text) cs

abbrev pub status_start : Bytes
status_start = codes "{\"type\":\"status\",\"status\":\""

abbrev pub source_start : Bytes
source_start = codes "{\"type\":\"source\",\"source\":\""

abbrev pub info_start : Bytes
info_start = codes "{\"type\":\"info\",\"info\":\""

-- What the format puts around its `%s`.
abbrev pub quoted : Bytes → Bytes → Bytes
quoted start s = start ++ (s ++ codes "\"}")

-- A literal of a format, with `%d` behind it.
abbrev pub numbered : Bytes → ℕ → Bytes → Bytes
numbered start n rest = start ++ (decimal n ++ rest)

abbrev pub step_json : ℕ → ℕ → ℕ → Bytes
step_json step total per =
    numbered (codes "{\"type\":\"step\",\"step\":") step
      (numbered (codes ",\"total\":") total (numbered (codes ",\"percent\":") per (codes "}")))

-- The text that the callback prints into its buffer of 512 bytes, before it is cut.
unfoldable pub notice_text : Notice → Result Bytes
notice_text (on_status status) = do
  msg ← updater_progress_status_message status
  ok (quoted status_start msg)
notice_text (on_source source) = do
  msg ← updater_progress_source_message source
  ok (quoted source_start msg)
notice_text (on_info info) = ok (quoted info_start info)
notice_text (on_step name step total per) = ok (step_json step total per)
notice_text (nonblocking h) = ok []

-- vsnprintf with the text as the format, and its length behind it as the one argument.
module _ (vsnprintf : Bytes → ℕ → Result Bytes) where
  -- updater_progress_callbacks
  unfoldable pub updater_progress : Notice → List Connection → Result (List Connection)
  unfolding http_broadcast_json
  updater_progress n cs = do
    b ← notice_text n
    text ← vsnprintf (into_512 b) (length b)
    http_broadcast_json text cs

  -- The callbacks of one poll, in their order.
  unfoldable pub tell_all : List Notice → List Connection → Result (List Connection)
  tell_all [] cs = ok cs
  tell_all (n ∷ ns) cs = do cs' ← updater_progress n cs; tell_all ns cs'
