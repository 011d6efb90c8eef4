-- ===== src/RouteNetwork.antt =====
-- http_route_network.c: reading and replacing the network settings over HTTP.
--
-- The settings' file is its bytes, or none when it is not there. What the C library decides is an
-- argument: whether the file can be opened for writing, whether fprintf and fclose succeed and what the
-- file holds otherwise, the text of strerror, and what printf makes of a directive that is neither a
-- conversion of an argument nor "%%".
pub mod Put
pub mod ReadBack
use atx_sys.Common.{
  ℕ, suc, Bool, true, false, List, [], ◌∷◌, ◌++◌, Option, none, some, if◌then◌else◌, Bytes, codes,
  length, Result, ok, fault, ◌>>=◌,
}
use atx_sys.Json.{Token, Tokens, Jsmn, read, json_delve}
use atx_sys.Network.{with_tokens, print_network_config_toks}
use atx_sys.Http.{Response}
use atx_sys.Http.Codes.{Method}
use atx_sys.Http.Format.{printf_only}

pub record Disk : Type 0 where
  pub opens : Bool
  pub prints : Bool
  pub closes : Bool
  pub partial : Bytes
  pub error : Bytes
  pub special : Bytes → Result Bytes

abbrev pub error_body : Bytes → Bytes
error_body r = codes "{\"error\":\"" ++ (r ++ codes "\"}")

-- The content of the file is the format.
unfoldable pub get : Disk → Option Bytes → Result Response
get disk none = ok (record { code = 404; body = codes "{\"error\":\"Not found\"}" })
get disk (some content) = do
  body ← printf_only disk.special content
  ok (record { code = 200; body = body })

-- The five tokens of a request, in the order of the condition; none where one is missing.
abbrev pub found_or {ℓ} : {A : Type ℓ} → A → (Tokens → A) → Option Tokens → A
found_or a f none = a
found_or a f (some t) = f t

abbrev pub Outcome : Type 0
Outcome = Option Bytes × Response

-- The file and the answer once the text to print is known. fprintf fills a buffer, and the result of
-- fclose, which writes it, is not tested.
abbrev pub written : Disk → Option Bytes → Bytes → Outcome
written disk file text =
    if disk.opens
    then (if disk.prints
        then (
          some (if disk.closes then text else disk.partial),
          record { code = 200; body = codes "{\"error\":\"ok\"}" },
        )
        else (some disk.partial, record { code = 500; body = error_body disk.error }))
    else (file, record { code = 500; body = error_body disk.error })

-- The tokens are read while the file is printed.
unfoldable pub write_settings : Disk → Option Bytes → Result Bytes → Result Outcome
write_settings disk file text =
    if disk.opens then (do t ← text; ok (written disk file t)) else ok (written disk file [])

unfoldable pub print_pointers : Bytes → Tokens → Tokens → Tokens → Tokens → Tokens → Result Bytes
print_pointers b m ip sn gw hn = do
  tm ← read m
  ti ← read ip
  ts ← read sn
  tg ← read gw
  th ← read hn
  ok (print_network_config_toks b tm ti ts tg th)

abbrev pub parser_error : Option Bytes → Outcome
parser_error file = (file, record { code = 500; body = error_body (codes "parser error") })

unfoldable pub put_tokens : Disk → Option Bytes → Bytes → Tokens → Result Outcome
put_tokens disk file b toks =
    let bad : Result Outcome = ok (parser_error file) in
    json_delve b toks (codes ".ipv4.meth")
    >>= found_or bad (λ m.
      json_delve b toks (codes ".ipv4.ip")
      >>= found_or bad (λ ip.
        json_delve b toks (codes ".ipv4.sn")
        >>= found_or bad (λ sn.
          json_delve b toks (codes ".ipv4.gw")
          >>= found_or bad (λ gw.
            json_delve b toks (codes ".ipv4.hn")
            >>= found_or bad (λ hn. write_settings disk file (print_pointers b m ip sn gw hn))))))

unfoldable pub put : Jsmn → Disk → Option Bytes → ℕ → Bytes → Result Outcome
put jsmn disk file l b =
    with_tokens (ok (parser_error file)) (put_tokens disk file b) (jsmn b l 256)

-- The file after the request, and the answer, if there is one.
unfoldable pub route_network :
    Jsmn → Disk → Option Bytes → Method → ℕ → Bytes → Result (Option Bytes × Option Response)
route_network jsmn disk file Method.get l b = do r ← get disk file; ok (file, some r)
route_network jsmn disk file Method.put l b = do
  (file', r) ← put jsmn disk file l b
  ok (file', some r)
route_network jsmn disk file Method.post l b = do
  (file', r) ← put jsmn disk file l b
  ok (file', some r)
route_network jsmn disk file Method.delete l b = ok (file, none)
