-- ===== src/Http/Format.antt =====
-- A text passed to printf as the format, with no arguments behind it.
use atx_sys.Common.{
  codes, ◌||◌, Bool-cases, inl, inr, ==_iff, IsText, ℕ, ◌≡◌, refl, ◌≢◌, ◌<◌, Bool, true, false, [],
  ◌∷◌, ◌++◌, ◌==◌, if◌then◌else◌, Bytes, Result, ok, fault, bad_read, arith,
}

abbrev pub put_first : ℕ → Result Bytes → Result Bytes
put_first c (ok s) = ok (c ∷ s)
put_first c (fault e) = fault e

-- The byte is one of the text.
abbrev pub is_one_of : Bytes → ℕ → Bool
is_one_of [] c = false
is_one_of (d ∷ s) c = c == d || is_one_of s c

-- The conversions that take an argument.
abbrev pub conversions : Bytes
conversions = codes "diouxXeEfFgGaAcspn"

-- A conversion reads an argument that was not passed, and "%%" prints a percent sign. What the
-- library makes of any other directive (flags, %m, an invalid one) and the text behind it is the
-- argument `special`. The text ends at its NUL. The flag tells whether a "%" stands before.
unfoldable pub printf_from : (Bytes → Result Bytes) → Bool → Bytes → Result Bytes
printf_from special true [] = special []
printf_from special false [] = ok []
printf_from special true (c ∷ s) =
    let rest = put_first c (printf_from special false s) in
    if c == b'%' then rest else if is_one_of conversions c then fault bad_read else special (c ∷ s)
printf_from special false (c ∷ s) =
    let plain = put_first c (printf_from special false s) in
    let directive = printf_from special true s in
    if c == 0 then ok [] else if c == b'%' then directive else plain

unfoldable pub printf_only : (Bytes → Result Bytes) → Bytes → Result Bytes
unfolding printf_from
printf_only special fmt = printf_from special false fmt

-- No NUL and no percent sign.
abbrev pub IsPlain : Bytes → Type 0
IsPlain [] = Unit {0}
IsPlain (c ∷ s) = (0 < c) × (c ≢ b'%') × IsPlain s

printf_from-plain :
    (special : Bytes → Result Bytes) (s : Bytes) → IsPlain s → printf_from special false s ≡ ok s
unfolding printf_from
printf_from-plain special [] h = refl
printf_from-plain special (c ∷ s) h = ground (arith, printf_from-plain special s h.2)

pub printf_only-plain :
    (special : Bytes → Result Bytes) (s : Bytes) → IsPlain s → printf_only special s ≡ ok s
unfolding printf_only
printf_only-plain special s h = printf_from-plain special s h

no_percent : (c : ℕ) → is_one_of conversions c ≡ true → (c == b'%') ≡ false
no_percent c h = elim (Bool-cases (c == b'%')) [
  | inr other ↦ other
  | inl same ↦ let clash : false ≡ true = rw ((==_iff c b'%').0 same) at h in absurd (cc)
]

printf_from-conversion :
    (special : Bytes → Result Bytes) (before : Bytes) (c : ℕ) (behind : Bytes)
    → IsPlain before
    → is_one_of conversions c ≡ true
    → printf_from special false (before ++ b'%' ∷ c ∷ behind) ≡ fault bad_read
unfolding printf_from
printf_from-conversion special [] c behind h n = rw (no_percent c n, n)
printf_from-conversion special (d ∷ s) c behind h n =
    let rest = printf_from-conversion special s c behind h.2 n in
    let other : (d == b'%') ≡ false = ground (arith, h.1) in
    let more : (d == 0) ≡ false = ground (arith, h.0) in rw (other, more, rest)

-- A conversion behind the first percent sign of a text.
pub printf_only-conversion :
    (special : Bytes → Result Bytes) (before : Bytes) (c : ℕ) (behind : Bytes)
    → IsPlain before
    → is_one_of conversions c ≡ true
    → printf_only special (before ++ b'%' ∷ c ∷ behind) ≡ fault bad_read
unfolding printf_only
printf_only-conversion special before c behind h n =
    printf_from-conversion special before c behind h n

-- `%s` of a buffer: its bytes up to the NUL, which has to be in it.
unfoldable pub printf_string : Bytes → Result Bytes
printf_string [] = fault bad_read
printf_string (c ∷ s) = let rest = put_first c (printf_string s) in if c == 0 then ok [] else rest

pub printf_string-text : (s behind : Bytes) → IsText s → printf_string (s ++ 0 ∷ behind) ≡ ok s
unfolding printf_string
printf_string-text [] behind h = refl
printf_string-text (c ∷ s) behind h = ground (arith, printf_string-text s behind h.1)
