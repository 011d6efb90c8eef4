-- ===== src/Api/Statuses.antt =====
-- Which answers a request can get.
use atx_sys.Common.{
  Holds, Holds-bind, Holds-then, Holds-if, ◌≡◌, refl, ◌⊎◌, inl, inr, Bool, true, false, Option,
  none, some, Bytes, codes, length, ℕ, ok, Result, ◌>>=◌, zero, suc, List, [],
}
use atx_sys.Json.{Jsmn, JsmnResult, failed, parsed, Tokens, json_delve}
use atx_sys.Env.{Var, env_read, env_read_val}
use atx_sys.Http.{Response}
use atx_sys.Http.Codes.{Method}
use atx_sys.Http.Format.{printf_only, printf_string}
use atx_sys.Http.Query.{Found, http_parse_query_str}
use atx_sys.Network.{with_tokens}
use atx_sys.RouteNetwork.{
  Disk, Outcome, found_or, written, parser_error, write_settings, print_pointers, put_tokens, put,
}
use atx_sys.RouteEnv.{answer_value, answer_all, get_found, key_of}
use atx_sys.Api.{Message, Outside}

-- The codes of the server's answers.
abbrev pub IsStatus : ℕ → Type 0
IsStatus n = (n ≡ 200) ⊎ ((n ≡ 404) ⊎ (n ≡ 500))

abbrev HasCode : Response → Type 0
HasCode r = IsStatus r.code

abbrev pub IsStatusAny : Option Response → Type 0
IsStatusAny none = Unit
IsStatusAny (some r) = IsStatus r.code

answer_value-IsStatus : (v : Option Bytes) → IsStatus (answer_value v).code
unfolding answer_value
answer_value-IsStatus (some val) = inl refl
answer_value-IsStatus none = inr (inl refl)

get_found-IsStatus :
    (pointer : ℕ) (vars : List Var) (buffer : Bytes) (key : Found)
    → Holds HasCode (get_found pointer vars buffer key)
unfolding answer_all
get_found-IsStatus pointer vars buffer none =
    Holds-bind HasCode (env_read vars buffer (length buffer)) _
      (λ (ret, buff, sz). Holds-bind HasCode (printf_string buff) _ (λ body. inl refl))
get_found-IsStatus pointer vars buffer (some key) =
    answer_value-IsStatus (env_read_val vars (key_of pointer key))

pub route_env-IsStatus :
    (out : Outside) (m : Message) (method : Method)
    → Holds IsStatusAny (
        atx_sys.RouteEnv.route_env out.pointer out.strstr m.query m.behind out.vars out.buffer
          method)
unfolding atx_sys.RouteEnv.route_env atx_sys.RouteEnv.get
route_env-IsStatus out m Method.get =
    Holds-then HasCode IsStatusAny _ _
      (Holds-bind HasCode (http_parse_query_str out.strstr m.query m.behind (codes "var")) _
        (get_found-IsStatus out.pointer out.vars out.buffer))
      (λ r h. h)
route_env-IsStatus out m Method.put = tt
route_env-IsStatus out m Method.post = tt
route_env-IsStatus out m Method.delete = tt

abbrev HasStatus : Outcome → Type 0
HasStatus x = IsStatus x.1.code

written-HasStatus :
    (disk : Disk) (file : Option Bytes) (text : Bytes) → HasStatus (written disk file text)
written-HasStatus disk file text = go disk.opens disk.prints
  where
    go :
        (opens prints : Bool)
        → HasStatus (written (record disk { opens = opens; prints = prints }) file text)
    go true true = inl refl
    go true false = inr (inr refl)
    go false prints = inr (inr refl)

write_settings-HasStatus :
    (disk : Disk) (file : Option Bytes) (text : Result Bytes)
    → Holds HasStatus (write_settings disk file text)
unfolding write_settings
write_settings-HasStatus disk file text =
    Holds-if HasStatus disk.opens _ _
      (Holds-bind HasStatus text _ (λ t. written-HasStatus disk file t))
      (written-HasStatus disk file [])

found_or-HasStatus :
    (file : Option Bytes) (f : Tokens → Result Outcome)
    → ((t : Tokens) → Holds HasStatus (f t))
    → (o : Option Tokens) → Holds HasStatus (found_or (ok (parser_error file)) f o)
found_or-HasStatus file f h none = inr (inr refl)
found_or-HasStatus file f h (some t) = h t

-- One of the five tokens, and what follows when it is there.
delve-HasStatus :
    (file : Option Bytes) (r : Result (Option Tokens)) (f : Tokens → Result Outcome)
    → ((t : Tokens) → Holds HasStatus (f t))
    → Holds HasStatus (r >>= found_or (ok (parser_error file)) f)
delve-HasStatus file r f h = Holds-bind HasStatus r _ (found_or-HasStatus file f h)

put_tokens-HasStatus :
    (disk : Disk) (file : Option Bytes) (b : Bytes) (toks : Tokens)
    → Holds HasStatus (put_tokens disk file b toks)
unfolding put_tokens
put_tokens-HasStatus disk file b toks =
    delve-HasStatus file (json_delve b toks (codes ".ipv4.meth")) _ (λ m.
      delve-HasStatus file (json_delve b toks (codes ".ipv4.ip")) _ (λ ip.
        delve-HasStatus file (json_delve b toks (codes ".ipv4.sn")) _ (λ sn.
          delve-HasStatus file (json_delve b toks (codes ".ipv4.gw")) _ (λ gw.
            delve-HasStatus file (json_delve b toks (codes ".ipv4.hn")) _
              (λ hn. write_settings-HasStatus disk file (print_pointers b m ip sn gw hn))))))

put-HasStatus :
    (jsmn : Jsmn) (disk : Disk) (file : Option Bytes) (l : ℕ) (b : Bytes)
    → Holds HasStatus (put jsmn disk file l b)
unfolding put
put-HasStatus jsmn disk file l b = go (jsmn b l 256)
  where
    go :
        (r : JsmnResult)
        → Holds HasStatus (with_tokens (ok (parser_error file)) (put_tokens disk file b) r)
    go (failed e) = inr (inr refl)
    go (parsed zero toks) = inr (inr refl)
    go (parsed (suc n) toks) = put_tokens-HasStatus disk file b toks

abbrev pub HasStatusAny : Option Bytes × Option Response → Type 0
HasStatusAny x = IsStatusAny x.1

pub route_network-HasStatusAny :
    (jsmn : Jsmn) (disk : Disk) (file : Option Bytes) (method : Method) (l : ℕ) (b : Bytes)
    → Holds HasStatusAny (atx_sys.RouteNetwork.route_network jsmn disk file method l b)
unfolding atx_sys.RouteNetwork.route_network atx_sys.RouteNetwork.get
route_network-HasStatusAny jsmn disk none Method.get l b = inr (inl refl)
route_network-HasStatusAny jsmn disk (some content) Method.get l b =
    Holds-then HasCode HasStatusAny _ _
      (Holds-bind HasCode (printf_only disk.special content) _ (λ body. inl refl)) (λ r h. h)
route_network-HasStatusAny jsmn disk file Method.put l b =
    Holds-then HasStatus HasStatusAny _ _ (put-HasStatus jsmn disk file l b) (λ x h. h)
route_network-HasStatusAny jsmn disk file Method.post l b =
    Holds-then HasStatus HasStatusAny _ _ (put-HasStatus jsmn disk file l b) (λ x h. h)
route_network-HasStatusAny jsmn disk file Method.delete l b = tt
