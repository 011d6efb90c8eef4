-- ===== src/Examples/Broadcast.antt =====
-- Two browsers and a download, and a response as a client reads it.
use atx_sys.Common.{
  ◌≡◌, refl, arith, ℕ, true, false, [], ◌∷◌, ◌++◌, some, Bytes, codes, Result, ok, fault, bad_read,
  replicate,
}
use atx_sys.Http.{Response}
use atx_sys.Http.Sent.{sent}
use atx_sys.Http.Sent.Client.{read_response, read_response-sent}
use atx_sys.Http.Broadcast.{Connection, http_broadcast_json}
use atx_sys.Http.Broadcast.Deliver.{http_broadcast_json_long}
use atx_sys.Updater.Progress.{Callbacks, Msg}

abbrev answer : Response
answer = record { code = 404; body = codes "{\"error\":\"not found\"}" }

read_response-sent_example : read_response (sent answer) ≡ some answer
read_response-sent_example = read_response-sent answer (omega arith) (omega arith)

abbrev pub browser : Connection
browser = record { is_websocket = true; frames = [] }

abbrev pub download : Connection
download = record { is_websocket = false; frames = [] }

http_broadcast_json_long_example :
    http_broadcast_json (replicate 1025 b'x') ((download ∷ []) ++ browser ∷ download ∷ [])
    ≡ fault bad_read
http_broadcast_json_long_example =
    http_broadcast_json_long (replicate 1025 b'x') (download ∷ []) browser (download ∷ [])
      (omega arith) refl

-- A printf that knows no directive.
abbrev pub print_plain : Bytes → ℕ → Result Bytes
print_plain s l = ok s

abbrev pub all_set : Callbacks
all_set = record { status = true; source = true; info = true; step = true }

abbrev pub message : Msg
message = record {
  status = 2;
  source = 1;
  info = codes "run";
  cur_step = 1;
  nsteps = 2;
  cur_percent = 40;
  cur_image = codes "rootfs";
}
