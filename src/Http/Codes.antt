-- ===== src/Http/Codes.antt =====
-- The mapping of results to HTTP codes and their texts, and the method of a request.
use atx_sys.Common.{
  ℕ, ◌≡◌, ◌⊎◌, Bool, ◌||◌, ◌==◌, if◌then◌else◌, Bytes, codes, peek, advance, ℤ, pos, negsuc, arith,
}

-- The cases of the switch that return their argument.
abbrev pub is_http_code : ℕ → Bool
is_http_code n = n == 200 || (n == 400 || (n == 403 || (n == 404 || (n == 500 || n == 504))))

unfoldable pub http_error_code : ℤ → ℕ
http_error_code (negsuc n) = if n == 0 then 400 else 0
http_error_code (pos n) = if n == 0 then 200 else if is_http_code n then n else 0

unfoldable pub http_error_message : ℤ → Bytes
http_error_message e =
    let code = http_error_code e in
    if code == 200
    then codes "ok"
    else if code == 400
    then codes "client error"
    else if code == 403
    then codes "authorization error"
    else if code == 404
    then codes "not found"
    else if code == 500
    then codes "server error"
    else if code == 504
    then codes "try again later"
    else codes "server error"

pub data Method : Type 0 where
  get post put delete : Method

-- m->method.p, read at its first two bytes.
unfoldable pub get_method : Bytes → Method
get_method p =
    if peek p == b'P'
    then (if peek (advance p) == b'U' then put else post)
    else if peek p == b'D'
    then delete
    else get

-- A code is its own result, so mapping twice changes nothing once the code is known; what is no
-- known result maps to 0, and its text is that of a server error.
pub http_error_code_idem :
    (e : ℤ)
    → ((http_error_code e ≡ 0) × (http_error_message e ≡ codes "server error"))
      ⊎ ((http_error_code (pos (http_error_code e)) ≡ http_error_code e)
          × (http_error_message (pos (http_error_code e)) ≡ http_error_message e))
unfolding http_error_code http_error_message
http_error_code_idem (negsuc n) = ground arith
http_error_code_idem (pos n) = ground arith
