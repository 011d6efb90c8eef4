-- ===== src/Http/Sent/Client.antt =====
-- A client that reads a response: the code, and as many bytes as Content-Length says.
use atx_sys.Common.{
  ℕ, ◌%◌, ◌^◌, ◌<◌, ◌≡◌, refl, ap, ◌∙◌, [], ◌∷◌, ◌++◌, append_assoc, Option, none, some, length,
  take, take-all, leb, ◌==◌, if◌then◌else◌, Bytes, codes, decimal, decimal_as_int, arith,
}
use atx_sys.Http.{Response}
use atx_sys.Http.Sent.Digits.{read_number, read_number-decimal, read_number-decimal_as_int}
use atx_sys.Http.Sent.{headers, c_vprintf, http_printf_json, sent}

-- What stands behind the text, if the bytes begin with it.
unfoldable pub behind_prefix : Bytes → Bytes → Option Bytes
behind_prefix [] s = some s
behind_prefix (d ∷ p) [] = none
behind_prefix (d ∷ p) (c ∷ s) = if c == d then behind_prefix p s else none

abbrev or_later : Option Bytes → Option Bytes → Option Bytes
or_later (some s) o = some s
or_later none o = o

-- What stands behind the first occurrence of the text.
unfoldable pub behind : Bytes → Bytes → Option Bytes
behind text [] = none
behind text (c ∷ s) = or_later (behind_prefix text (c ∷ s)) (behind text s)

abbrev then_some {ℓ} : {A B : Type ℓ} → Option A → (A → Option B) → Option B
then_some none f = none
then_some (some a) f = f a

-- The first `n` bytes of the text, if there are so many.
abbrev first_bytes : ℕ → ℕ → Bytes → Option Response
first_bytes code n text =
    let body : Response = record { code = code; body = take n text } in
    if leb n (length text) then some body else none

unfoldable pub read_body : ℕ → ℕ × Bytes → Option Response
read_body code (n, rest) = then_some (behind (codes "\r\n\r\n") rest) (first_bytes code n)

unfoldable pub read_length : ℕ × Bytes → Option Response
unfolding read_body
read_length (code, rest) =
    then_some (behind (codes "Content-Length: ") rest)
      λ counted. read_body code (read_number 0 counted)

unfoldable pub read_response : Bytes → Option Response
unfolding read_length
read_response s =
    then_some (behind (codes "HTTP/1.0 ") s) λ status. read_length (read_number 0 status)

-- What stands between the two numbers, and behind the second.
abbrev fields : Bytes
fields =
    codes
      " \r\nServer: Altronix atx-update Embedded Web Server\r\nConnection: keep-alive\r\nContent-Type: application/json\r\nContent-Length: "

abbrev ending : Bytes
ending =
    codes
      "\r\nX-Frame-Options: SAMEORIGIN\r\nContent-Security-Policy: script-src 'self' 'unsafe-eval';\r\n\r\n"

sent-layout :
    (code : ℕ) (body : Bytes)
    → http_printf_json code body
      ≡ codes "HTTP/1.0 "
        ++ (decimal code ++ (fields ++ (decimal_as_int (length body % 2 ^ 32) ++ (ending ++ body))))
unfolding http_printf_json c_vprintf headers
sent-layout code body =
    let l : Bytes = decimal_as_int (length body % 2 ^ 32) in
    ap (codes "HTTP/1.0 " ++◌) (
      append_assoc (decimal code) (fields ++ (l ++ ending)) body
      ∙ ap (decimal code ++◌) (ap (fields ++◌) (append_assoc l ending body)))

read_number-fields : (n : ℕ) (s : Bytes) → read_number n (fields ++ s) ≡ (n, fields ++ s)
unfolding read_number
read_number-fields n s = refl

read_number-ending : (n : ℕ) (s : Bytes) → read_number n (ending ++ s) ≡ (n, ending ++ s)
unfolding read_number
read_number-ending n s = refl

behind-fields : (s : Bytes) → behind (codes "Content-Length: ") (fields ++ s) ≡ some s
unfolding behind behind_prefix
behind-fields s = refl

behind-ending : (s : Bytes) → behind (codes "\r\n\r\n") (ending ++ s) ≡ some s
unfolding behind behind_prefix
behind-ending s = refl

behind-start : (s : Bytes) → behind (codes "HTTP/1.0 ") (codes "HTTP/1.0 " ++ s) ≡ some s
unfolding behind behind_prefix
behind-start s = refl

read_response-start :
    (s : Bytes) → read_response (codes "HTTP/1.0 " ++ s) ≡ read_length (read_number 0 s)
unfolding read_response
read_response-start s =
    ap (λ o. then_some o λ status. read_length (read_number 0 status)) (behind-start s)

read_length-fields :
    (code : ℕ) (s : Bytes) → read_length (code, fields ++ s) ≡ read_body code (read_number 0 s)
unfolding read_length
read_length-fields code s =
    ap (λ o. then_some o λ counted. read_body code (read_number 0 counted)) (behind-fields s)

first_bytes-all : (r : Response) → first_bytes r.code (length r.body) r.body ≡ some r
first_bytes-all r = ground (arith, take-all (length r.body) r.body)

read_body-ending : (r : Response) → read_body r.code (length r.body, ending ++ r.body) ≡ some r
unfolding read_body
read_body-ending r =
    ap (λ o. then_some o (first_bytes r.code (length r.body))) (behind-ending r.body)
    ∙ first_bytes-all r

-- A client that reads the code behind "HTTP/1.0 " and as many bytes of the text as Content-Length
-- says reads from the bytes of a response its code, of at most ten digits, and its body, of fewer
-- than 2^31 bytes.
pub read_response-sent :
    (r : Response) → r.code < 10 ^ 10 → length r.body < 2 ^ 31 → read_response (sent r) ≡ some r
read_response-sent r small short =
    let l : Bytes = decimal_as_int (length r.body) in
    let same : length r.body % 2 ^ 32 ≡ length r.body = omega arith in
    ap read_response (
      sent-layout r.code r.body
      ∙ ap
          (λ n.
            codes "HTTP/1.0 "
            ++ (decimal r.code ++ (fields ++ (decimal_as_int n ++ (ending ++ r.body)))))
          same)
    ∙ read_response-start (decimal r.code ++ (fields ++ (l ++ (ending ++ r.body))))
    ∙ ap read_length (
        read_number-decimal r.code (fields ++ (l ++ (ending ++ r.body))) small
        ∙ read_number-fields r.code (l ++ (ending ++ r.body)))
    ∙ read_length-fields r.code (l ++ (ending ++ r.body))
    ∙ ap (read_body r.code) (
        read_number-decimal_as_int (length r.body) (ending ++ r.body) short
        ∙ read_number-ending (length r.body) r.body)
    ∙ read_body-ending r
