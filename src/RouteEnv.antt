-- ===== src/RouteEnv.antt =====
-- http_route_env.c: reading the bootloader environment over HTTP.
--
-- The query is found by `Http.Query`; the environment is the variables that the library yields. The
-- buffer of 4096 bytes that env_read fills is on the stack, with unknown bytes in it.
pub mod Get
use atx_sys.Common.{
  ◌-◌, ℕ, Bool, true, false, List, [], ◌∷◌, ◌++◌, Option, none, some, Bytes, codes, take, length,
  print_at_most, ℤ, pos, Result, ok, ◌>>=◌,
}
use atx_sys.Env.{Var, env_read, env_read_val}
use atx_sys.Http.{Response}
use atx_sys.Http.Codes.{Method, http_error_message}
use atx_sys.Http.Format.{printf_string}
use atx_sys.Http.Query.{Strstr, Found, http_parse_query_str}

-- `snprintf(key, sizeof(keyp), ...)`: the size is that of a pointer, which is not the same on every
-- target and comes first.
abbrev pub key_of : ℕ → Bytes × ℕ → Bytes
key_of pointer (keyp, keyl) = take (pointer - 1) (print_at_most keyl keyp)

unfoldable pub answer_value : Option Bytes → Response
answer_value (some val) = record { code = 200; body = codes "{\"val\":\"" ++ (val ++ codes "\"") }
answer_value none = record {
  code = 404;
  body = codes "{\"error\":\"" ++ (http_error_message (pos 404) ++ codes "\"");
}

unfoldable pub answer_all : List Var → Bytes → Result Response
answer_all vars buffer = do
  (ret, buff, sz) ← env_read vars buffer (length buffer)
  body ← printf_string buff
  ok (record { code = 200; body = body })

abbrev pub get_found : ℕ → List Var → Bytes → Found → Result Response
get_found pointer vars buffer none = answer_all vars buffer
get_found pointer vars buffer (some key) =
    ok (answer_value (env_read_val vars (key_of pointer key)))

-- The size of a pointer, the query, the bytes of the message behind it, the variables, and the buffer.
unfoldable pub get : ℕ → Strstr → Bytes → Bytes → List Var → Bytes → Result Response
get pointer strstr q behind vars buffer = do
  key ← http_parse_query_str strstr q behind (codes "var")
  get_found pointer vars buffer key

unfoldable pub route_env :
    ℕ → Strstr → Bytes → Bytes → List Var → Bytes → Method → Result (Option Response)
route_env pointer strstr q behind vars buffer Method.get = do
  r ← get pointer strstr q behind vars buffer
  ok (some r)
route_env pointer strstr q behind vars buffer Method.put = ok none
route_env pointer strstr q behind vars buffer Method.post = ok none
route_env pointer strstr q behind vars buffer Method.delete = ok none
