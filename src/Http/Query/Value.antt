-- ===== src/Http/Query/Value.antt =====
-- What the query parser finds.
use atx_sys.Common.{
  ℕ, suc, ◌+◌, ◌-◌, ◌%◌, ◌^◌, ◌<◌, ◌≡◌, refl, sym, ap, ◌≢◌, true, false, [], ◌∷◌, ◌++◌, Option,
  none, some, length, length-append, drop-append_self, drop-add, append_assoc, ltb, lt→ltb, leb,
  ◌==◌, Bytes, ok, arith,
}
use atx_sys.Http.Query.{
  Strstr, byte_at, memchr, one_later, or_all, value_from, http_parse_query_str,
}

-- No separator of parameters.
abbrev pub NoAmpersand : Bytes → Type 0
NoAmpersand [] = Unit {0}
NoAmpersand (c ∷ s) = (c ≢ b'&') × NoAmpersand s

-- The query ends, or another parameter follows.
abbrev pub Separates : Bytes → Type 0
Separates [] = Unit {0}
Separates (c ∷ s) = c ≡ b'&'

byte_at-append : (s : Bytes) (c : ℕ) (t : Bytes) → byte_at (length s) (s ++ c ∷ t) ≡ ok c
unfolding byte_at
byte_at-append [] c t = refl
byte_at-append (d ∷ s) c t = byte_at-append s c t

-- The length up to the separator is the length of the value.
or_all-one_later :
    (o : Option ℕ) (n : ℕ) {m : ℕ} → or_all n o ≡ m → or_all (suc n) (one_later o) ≡ suc m
or_all-one_later none n h = ap suc h
or_all-one_later (some i) n h = ap suc h

memchr-value :
    (value rest behind : Bytes)
    → NoAmpersand value
    → Separates rest
    → (o : Option ℕ) × (memchr (length value + length rest) b'&' (value ++ (rest ++ behind)) ≡ ok o)
      × (or_all (length value + length rest) o ≡ length value)
unfolding memchr
memchr-value [] [] behind h s = (none, refl, refl)
memchr-value [] (c ∷ rest) behind h s =
    let more : 0 + suc (length rest) ≡ suc (length rest) = omega arith in
    let hit : (c == b'&') ≡ true = ground arith in (some 0, rw (more, hit), refl)
memchr-value (c ∷ value) rest behind h s =
    let (o, e, l) = memchr-value value rest behind h.1 s in
    let more : suc (length value) + length rest ≡ suc (length value + length rest) = omega arith in
    let miss : (c == b'&') ≡ false = ground arith in
    (one_later o, rw (more, miss, e), rw more (or_all-one_later o (length value + length rest) l))

value_from-value :
    (head value rest behind : Bytes) (qlen : ℕ)
    → qlen ≡ length head + 1 + (length value + length rest)
    → qlen < 2 ^ 32
    → NoAmpersand value
    → Separates rest
    → value_from (head ++ b'=' ∷ (value ++ (rest ++ behind))) qlen (length head + 1)
      ≡ ok (some (value ++ (rest ++ behind), length value))
unfolding value_from
value_from-value head value rest behind qlen e short h s =
    let left : (qlen + 2 ^ 64 - (length head + 1)) % 2 ^ 64 ≡ length value + length rest =
      omega arith in
    let small : length value % 2 ^ 32 ≡ length value = omega arith in
    let (o, found, l) = memchr-value value rest behind h s in
    rw (
      drop-add (length head) 1 (head ++ b'=' ∷ (value ++ (rest ++ behind))),
      drop-append_self head (b'=' ∷ (value ++ (rest ++ behind))),
      left,
      found,
      l,
      small,
    )

-- When mg_strstr finds the name at an offset where "=" follows it, in a query of fewer than 2^32
-- bytes, the parser finds the value behind the "=" up to the next "&" or the end of the query,
-- whatever stands before the name.
pub http_parse_query_str-value :
    (strstr : Strstr) (before want value rest behind : Bytes)
    → strstr (before ++ (want ++ b'=' ∷ (value ++ rest))) want ≡ some (length before)
    → length (before ++ (want ++ b'=' ∷ (value ++ rest))) < 2 ^ 32
    → NoAmpersand value
    → Separates rest
    → http_parse_query_str strstr (before ++ (want ++ b'=' ∷ (value ++ rest))) behind want
      ≡ ok (some (value ++ (rest ++ behind), length value))
unfolding http_parse_query_str
http_parse_query_str-value strstr before want value rest behind found short h s =
    let head = before ++ want in
    let q = before ++ (want ++ b'=' ∷ (value ++ rest)) in
    let message : q ++ behind ≡ head ++ b'=' ∷ (value ++ (rest ++ behind)) = simp append_assoc in
    let spot : length before + length want ≡ length head = sym (length-append before want) in
    let qlen : length q ≡ length head + 1 + (length value + length rest) = omega (
      arith,
      length-append {0} before (want ++ b'=' ∷ (value ++ rest)),
      length-append {0} want (b'=' ∷ (value ++ rest)),
      length-append {0} value rest,
    ) in
    let fits : leb (length want) (length q) ≡ true = ground arith in
    let inside : ltb (length before) (length q) ≡ true = lt→ltb _ _ (omega arith) in
    rw (
      found,
      fits,
      inside,
      message,
      spot,
      byte_at-append head b'=' (value ++ (rest ++ behind)),
      value_from-value head value rest behind (length q) qlen short h s,
    )
