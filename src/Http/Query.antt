-- ===== src/Http/Query.antt =====
-- `http_parse_query_str` of http.c: the value of a parameter in the query of a request.
--
-- The query is a pointer and a length into the message, so it is modelled by its bytes and the bytes
-- of the message behind it. mongoose's mg_strstr is a parameter: the offset of the needle, if any.
pub mod Value
use atx_sys.Common.{
  ℕ, zero, suc, ◌+◌, ◌-◌, ◌%◌, ◌^◌, Bool, true, false, not, ◌&&◌, List, [], ◌∷◌, ◌++◌, Option, none,
  some, length, drop, ltb, leb, ◌==◌, if◌then◌else◌, Bytes, Result, ok, fault, bad_read, ◌>>=◌,
}

abbrev pub Strstr : Type 0
Strstr = Bytes → Bytes → Option ℕ

-- s[i]
unfoldable pub byte_at : ℕ → Bytes → Result ℕ
byte_at i [] = fault bad_read
byte_at zero (c ∷ s) = ok c
byte_at (suc i) (c ∷ s) = byte_at i s

abbrev pub one_later : Option ℕ → Option ℕ
one_later none = none
one_later (some i) = some (suc i)

-- memchr(s, c, n) - s, when the byte is found. The bytes are read up to it.
unfoldable pub memchr : ℕ → ℕ → Bytes → Result (Option ℕ)
memchr zero c s = ok none
memchr (suc n) c [] = fault bad_read
memchr (suc n) c (d ∷ s) =
    let rest : Result (Option ℕ) = memchr n c s >>= λ o. ok (one_later o) in
    if d == c then ok (some 0) else rest

-- Where the value starts and how long it is: `*result` and `*l`, or NULL and 0.
abbrev pub Found : Type 0
Found = Option (Bytes × ℕ)

abbrev pub or_all : ℕ → Option ℕ → ℕ
or_all n none = n
or_all n (some i) = i

abbrev u32 : ℕ
u32 = 2 ^ 32

-- From the offset of the value on, once the query is accepted.
unfoldable pub value_from : Bytes → ℕ → ℕ → Result Found
value_from message qlen start = do
  let left = (qlen + 2 ^ 64 - start) % 2 ^ 64
  end ← memchr left b'&' (drop start message)
  ok (some (drop start message, or_all left end % u32))

abbrev and_then {ℓ} : {A : Type ℓ} → Option ℕ → A → (ℕ → A) → A
and_then none a f = a
and_then (some i) a f = f i

unfoldable pub http_parse_query_str : Strstr → Bytes → Bytes → Bytes → Result Found
http_parse_query_str strstr q behind want =
    let message = q ++ behind in
    let wantlen = length want in
    and_then (strstr q want) (ok none) λ spot.
      let accepted = value_from message (length q) (spot + wantlen + 1) in
      if leb wantlen (length q) && ltb spot (length q)
      then (do c ← byte_at (spot + wantlen) message; if not (c == b'=') then ok none else accepted)
      else accepted
