-- ===== src/RouteEnv/Get.antt =====
-- What a GET of the environment answers.
use atx_sys.Http.{Response}
use atx_sys.Common.{
  ◌-◌, ℕ, ◌^◌, ◌≡◌, refl, ◌<◌, List, [], ◌∷◌, ◌++◌, Option, none, some, Bytes, codes, take, length,
  print_at_most_whole, IsText, ok, arith, if◌then◌else◌, bytes_eq,
}
use atx_sys.Env.{Var, u32, env_read_val}
use atx_sys.Env.Fits.{rendered, env_read-rendered}
use atx_sys.Http.Codes.{Method, http_error_message, http_error_code}
use atx_sys.Http.Format.{printf_string-text}
use atx_sys.Http.Query.{Strstr, http_parse_query_str}
use atx_sys.Http.Query.Value.{NoAmpersand, Separates, http_parse_query_str-value}
use atx_sys.RouteEnv.{get, answer_value, answer_all, route_env}

-- The value of the first variable of that name.
abbrev pub value_of : Bytes → List Var → Option Bytes
value_of key [] = none
value_of key ((name, value) ∷ vars) = if bytes_eq name key then some value else value_of key vars

env_read_val-value_of : (vars : List Var) (key : Bytes) → env_read_val vars key ≡ value_of key vars
unfolding env_read_val
env_read_val-value_of [] key = refl
env_read_val-value_of ((name, value) ∷ vars) key = ground (arith, env_read_val-value_of vars key)

-- What is answered for a value, or for none.
abbrev pub value_or_not_found : Option Bytes → Response
value_or_not_found (some value) = record {
  code = 200;
  body = codes "{\"val\":\"" ++ (value ++ codes "\"");
}
value_or_not_found none = record { code = 404; body = codes "{\"error\":\"not found\"" }

answer_value-value_or_not_found : (o : Option Bytes) → answer_value o ≡ value_or_not_found o
unfolding answer_value http_error_message http_error_code
answer_value-value_or_not_found none = refl
answer_value-value_or_not_found (some value) = refl

-- A GET of the environment with "var=" and a name, where mg_strstr finds that "var", is answered
-- with 200 and the value of the variable that is named by the first bytes of the name, one fewer
-- than a pointer has, or with 404 and "not found" where there is none. The query has fewer than
-- 2^32 bytes; the name has no NUL and ends at "&" or with the query.
pub route_env-value :
    (pointer : ℕ) (strstr : Strstr) (before name rest behind : Bytes) (vars : List Var)
    (buffer : Bytes)
    → strstr (before ++ (codes "var" ++ b'=' ∷ (name ++ rest))) (codes "var") ≡ some (length before)
    → length (before ++ (codes "var" ++ b'=' ∷ (name ++ rest))) < 2 ^ 32
    → IsText name
    → NoAmpersand name
    → Separates rest
    → route_env pointer strstr
        (before ++ (codes "var" ++ b'=' ∷ (name ++ rest)))
        behind
        vars
        buffer
        Method.get
      ≡ ok (some (value_or_not_found (value_of (take (pointer - 1) name) vars)))
unfolding route_env get
route_env-value pointer strstr before name rest behind vars buffer found short text plain sep = rw (
  http_parse_query_str-value strstr before (codes "var") name rest behind found short plain sep,
  print_at_most_whole name (rest ++ behind) text,
  env_read_val-value_of vars (take (pointer - 1) name),
  answer_value-value_or_not_found (value_of (take (pointer - 1) name) vars),
)

-- A GET of the environment in whose query mg_strstr finds no "var" is answered with the whole
-- environment as a JSON object, when the object has no NUL and fits with its own in the buffer, of
-- fewer than 2^32 bytes.
pub route_env-rendered :
    (pointer : ℕ) (strstr : Strstr) (q behind : Bytes) (vars : List Var) (buffer : Bytes)
    → strstr q (codes "var") ≡ none
    → IsText (rendered vars)
    → length (rendered vars) < length buffer
    → length buffer < u32
    → route_env pointer strstr q behind vars buffer Method.get
      ≡ ok (some (record { code = 200; body = rendered vars }))
unfolding route_env get http_parse_query_str answer_all
route_env-rendered pointer strstr q behind vars buffer missing text fits small =
    let shows = env_read-rendered vars buffer fits small in
    rw (missing, shows.result, printf_string-text (rendered vars) shows.behind text)
