-- ===== src/Json.antt =====
-- json.c and json.h: walking the token array of the jsmn tokenizer.
--
-- A `const jsmntok_t*` into an array is modelled by the part of the array from there on, up to the
-- last token that the tokenizer wrote. A read at the end of it (an uninitialised or foreign token)
-- is the fault `bad_read`. `NULL` is `none`. A buffer is its bytes, and a C string its bytes before
-- the NUL. The recursion of `json_next` takes fuel, one more than the tokens that are left.
pub mod Layout
pub mod Next
pub mod Scan
pub mod Tree
pub mod Delve
pub mod Ends
pub mod Arrays
pub mod Each
pub mod Numbers
use atx_sys.Common.{
  Result, ok, fault, bad_read, failed_assert, aborted, out_of_fuel, ◌>>=◌, ℕ, zero, suc, ◌-◌, Bool,
  true, false, not, Option, none, some, List, [], ◌∷◌, length, take, drop, ltb, ◌==◌, if◌then◌else◌,
  Bytes, peek, strncmp_same,
}

pub data TokenType : Type 0 where
  undefined object array string primitive : TokenType

pub record Token : Type 0 where
  pub type : TokenType
  pub start : ℕ
  pub end : ℕ
  pub size : ℕ

abbrev pub Tokens : Type 0
Tokens = List Token

pub record JsmnValue : Type 0 where
  pub p : Bytes
  pub len : ℕ

-- What `jsmn_parse(&p, js, len, toks, n)` gives: the error -(k + 1), or the count that it returns and
-- the tokens that it wrote.
pub data JsmnResult : Type 0 where
  failed : ℕ → JsmnResult
  parsed : ℕ → Tokens → JsmnResult

-- The vendored tokenizer, a parameter of what calls it: the text, its length, the room for tokens.
abbrev pub Jsmn : Type 0
Jsmn = Bytes → ℕ → ℕ → JsmnResult

abbrev pub is_object : TokenType → Bool
is_object object = true
is_object _ = false

abbrev pub is_array : TokenType → Bool
is_array array = true
is_array _ = false

abbrev pub is_string : TokenType → Bool
is_string string = true
is_string _ = false

abbrev pub is_primitive : TokenType → Bool
is_primitive primitive = true
is_primitive _ = false

-- *tok
unfoldable pub read : Tokens → Result Token
read [] = fault bad_read
read (t ∷ ts) = ok t

-- tok + 1
abbrev pub succ_tok : Tokens → Tokens
succ_tok [] = []
succ_tok (t ∷ ts) = ts

unfoldable pub json_tok_is_null : Bytes → Token → Bool
json_tok_is_null buffer tok =
    if not (is_primitive tok.type) then false else peek (drop tok.start buffer) == b'n'

-- The body of a `for` loop that steps over n tokens with their children.
unfoldable pub step_over : (Tokens → Result Tokens) → ℕ → Tokens → Result Tokens
step_over next zero t = ok t
step_over next (suc n) t = do t' ← next t; step_over next n t'

unfoldable pub next_fuel : ℕ → Tokens → Result Tokens
next_fuel zero tok = fault out_of_fuel
next_fuel (suc f) tok = do k ← read tok; step_over (next_fuel f) k.size (succ_tok tok)

unfoldable pub json_next : Tokens → Result Tokens
json_next tok = next_fuel (suc (length tok)) tok

unfoldable pub json_tok_streq : Bytes → Token → Bytes → Bool
json_tok_streq buffer tok str =
    if not (is_string tok.type)
    then false
    else if not (tok.end - tok.start == length str)
    then false
    else strncmp_same (tok.end - tok.start) (drop tok.start buffer) str

-- json_for_each_obj with the body of `json_get_member`, from the key `t` with n keys left.
unfoldable pub find_member : Bytes → Bytes → ℕ → Tokens → Result (Option Tokens)
find_member buffer label zero t = ok none
find_member buffer label (suc n) t = do
  k ← read t
  let rest : Result (Option Tokens) = json_next (succ_tok t) >>= find_member buffer label n
  if json_tok_streq buffer k label then ok (some (succ_tok t)) else rest

unfoldable pub json_get_member : Bytes → Tokens → Bytes → Result (Option Tokens)
json_get_member buffer tok label = do
  k ← read tok
  if not (is_object k.type) then ok none else find_member buffer label k.size (succ_tok tok)

-- json_for_each_arr with the body of `json_get_arr`, from the element `t` with n elements left.
unfoldable pub find_element : ℕ → ℕ → Tokens → Result (Option Tokens)
find_element index zero t = ok none
find_element index (suc n) t =
    let rest : Result (Option Tokens) = json_next t >>= find_element (index - 1) n in
    if index == 0 then ok (some t) else rest

unfoldable pub json_get_arr : Tokens → ℕ → Result (Option Tokens)
json_get_arr tok index = do
  k ← read tok
  if not (is_array k.type) then ok none else find_element index k.size (succ_tok tok)

unfoldable pub json_tok_value : Bytes → Token → JsmnValue
json_tok_value b t = record { p = drop t.start b; len = t.end - t.start }

-- strcspn(s, "."): the length of the part before the first dot.
unfoldable pub strcspn_dot : Bytes → ℕ
strcspn_dot [] = 0
strcspn_dot (c ∷ s) = if c == b'.' then 0 else suc (strcspn_dot s)

-- One round of the loop of `json_delve`: the member named by the key, and the rest of the guide.
delve_step : Bytes → Tokens → ℕ → Bytes → Result (Option Tokens)
delve_step buf tok c key =
    if not (ltb (length key) 128)
    then fault failed_assert
    else if c == b'.'
    then (do k ← read tok; if not (is_object k.type) then ok none else json_get_member buf tok key)
    else fault aborted

-- if (!tok) return NULL;
abbrev pub or_null {ℓ} :
    {A : Type ℓ} → (Tokens → Result (Option A)) → Option Tokens → Result (Option A)
or_null k none = ok none
or_null k (some t) = k t

delve_fuel : ℕ → Bytes → Tokens → Bytes → Result (Option Tokens)
delve_fuel f buf tok [] = ok (some tok)
delve_fuel zero buf tok (c ∷ s) = fault out_of_fuel
delve_fuel (suc f) buf tok (c ∷ s) =
    delve_step buf tok c (take (strcspn_dot s) s)
    >>= or_null (λ t. delve_fuel f buf t (drop (strcspn_dot s) s))

unfoldable pub json_delve : Bytes → Tokens → Bytes → Result (Option Tokens)
unfolding delve_fuel delve_step
json_delve buf tok guide = delve_fuel (length guide) buf tok guide

unfoldable pub json_delve_value : Bytes → Tokens → Bytes → Result (Option JsmnValue)
json_delve_value buff tok guide =
    json_delve buff tok guide >>= or_null (λ t. do k ← read t; ok (some (json_tok_value buff k)))
