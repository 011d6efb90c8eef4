-- ===== src/Json/Numbers.antt =====
-- The conversions of numbers of json.c: json_to_u64, json_to_s64 and the family made of them.
--
-- strtoull is a parameter: for the text at the token, the value, the offset behind what it read, and
-- whether it set errno to ERANGE. An int64_t is an integer, and a narrower type keeps the low bits.
pub mod Widths
use atx_sys.Common.{
  ℕ, ◌+◌, ◌-◌, ◌%◌, ◌^◌, Bool, true, false, not, ◌&&◌, ◌||◌, ltb, ◌==◌, if◌then◌else◌, Option, none,
  some, Bytes, drop, ℤ, pos, negsuc, Result, ok, fault, bad_read, ◌>>=◌,
}
use atx_sys.Json.{Token}

pub record Parsed : Type 0 where
  pub value : ℕ
  pub used : ℕ
  pub range : Bool

abbrev pub Strtoull : Type 0
Strtoull = Bytes → Parsed

-- What a conversion returns, and what it stored, if anything.
abbrev pub Stored : Type 0 → Type 0
Stored A = ℤ × Option A

-- A text that does not end with the token is `return false`, with nothing stored.
unfoldable pub json_to_u64 : Strtoull → Bytes → Token → Stored ℕ
json_to_u64 strtoull buf tok =
    let l = strtoull (drop tok.start buf) in
    if not (tok.start + l.used == tok.end)
    then (pos 0, none)
    else if l.value == 2 ^ 64 - 1 && l.range
    then (negsuc 0, some l.value)
    else (pos 0, some l.value)

-- The low w bits as a two's complement number of this width, for w = 8, 16, 32 and 64.
abbrev pub signed : ℕ → ℕ → ℤ
signed w n = let m = n % 2 ^ w in if ltb m (2 ^ (w - 1)) then pos m else negsuc (2 ^ w - 1 - m)

-- LONG_MIN converted to unsigned long long is 2 ^ 63.
unfoldable pub json_to_s64 : Strtoull → Bytes → Token → Stored ℤ
json_to_s64 strtoull buf tok =
    let l = strtoull (drop tok.start buf) in
    if not (tok.start + l.used == tok.end)
    then (pos 0, none)
    else if (l.value == 2 ^ 63 - 1 || l.value == 2 ^ 63) && l.range
    then (negsuc 0, some (signed 64 l.value))
    else (pos 0, some (signed 64 l.value))

-- The widths of make_json_to_u and make_json_to_s.
pub data Width : Type 0 where
  w8 w16 w32 : Width

abbrev pub bits : Width → ℕ
bits w8 = 8
bits w16 = 16
bits w32 = 32

-- The 64-bit value is read even where nothing was stored.
abbrev pub read_value : {A B : Type 0} → Option A → (A → B) → Result B
read_value none f = fault bad_read
read_value (some a) f = ok (f a)

-- if (json_to_u64(...)) return -1;
abbrev pub narrow : {A : Type 0} → Stored A → (A → Stored A) → Result (Stored A)
narrow (negsuc n, x) f = ok (negsuc 0, none)
narrow (pos n, x) f = if n == 0 then read_value x f else ok (negsuc 0, none)

unfoldable pub json_to_u : Width → Strtoull → Bytes → Token → Result (Stored ℕ)
json_to_u w strtoull buf tok =
    narrow (json_to_u64 strtoull buf tok)
      λ x. let r = x % 2 ^ bits w in (if r == x then pos 0 else negsuc 0, some r)

abbrev pub low_bits : ℤ → ℕ
low_bits (pos n) = n % 2 ^ 64
low_bits (negsuc n) = (2 ^ 64 - 1 - n) % 2 ^ 64

abbrev pub same_int : ℤ → ℤ → Bool
same_int (pos m) (pos n) = m == n
same_int (negsuc m) (negsuc n) = m == n
same_int (pos m) (negsuc n) = false
same_int (negsuc m) (pos n) = false

unfoldable pub json_to_s : Width → Strtoull → Bytes → Token → Result (Stored ℤ)
json_to_s w strtoull buf tok =
    narrow (json_to_s64 strtoull buf tok) λ x.
      let r = signed (bits w) (low_bits x) in (if same_int r x then pos 0 else negsuc 0, some r)
