-- ===== src/Json/Numbers/Widths.antt =====
-- Which numbers a width takes.
use atx_sys.Common.{
  ◌||◌, not, ℕ, ◌+◌, ◌-◌, ◌%◌, ◌^◌, ◌<◌, ◌≡◌, ◌≢◌, false, ltb, ◌==◌, if◌then◌else◌, some, Bytes,
  drop, pos, negsuc, ok, fault, bad_read, arith,
}
use atx_sys.Json.{Token}
use atx_sys.Json.Numbers.{
  signed, Strtoull, json_to_u64, json_to_s64, json_to_u, json_to_s, Width, w8, w16, w32, bits,
}

-- strtoull reads the token's text to its end.
abbrev pub Reads : Strtoull → Bytes → Token → ℕ → Type 0
Reads strtoull buf tok n =
    strtoull (drop tok.start buf) ≡ record { value = n; used = tok.end - tok.start; range = false }

-- A token that is not empty and that strtoull reads to its end without an error is stored with its
-- low bits, and the result of the unsigned conversion is 0 if the number is below 2 to the width
-- and -1 if not.
pub json_to_u-Reads :
    (w : Width) (strtoull : Strtoull) (buf : Bytes) (tok : Token) (n : ℕ)
    → Reads strtoull buf tok n
    → tok.start < tok.end
    → json_to_u w strtoull buf tok
      ≡ ok (if ltb n (2 ^ bits w) then pos 0 else negsuc 0, some (n % 2 ^ bits w))
unfolding json_to_u json_to_u64
json_to_u-Reads w8 strtoull buf tok n h order = rw h (ground arith)
json_to_u-Reads w16 strtoull buf tok n h order = rw h (ground arith)
json_to_u-Reads w32 strtoull buf tok n h order = rw h (ground arith)

-- A token that is not empty and that strtoull reads to its end without an error, as a number below
-- 2^64, is stored with its low bits as a signed number, and the result is 0 if the number is below
-- 2 to the width less one, or at most that below 2^64, and -1 if not.
pub json_to_s-Reads :
    (w : Width) (strtoull : Strtoull) (buf : Bytes) (tok : Token) (n : ℕ)
    → Reads strtoull buf tok n
    → tok.start < tok.end
    → n < 2 ^ 64
    → json_to_s w strtoull buf tok
      ≡ ok (
        if ltb n (2 ^ (bits w - 1)) || not (ltb n (2 ^ 64 - 2 ^ (bits w - 1)))
            then pos 0
            else negsuc 0,
        some (signed (bits w) n),
      )
unfolding json_to_s json_to_s64
json_to_s-Reads w8 strtoull buf tok n h order small = rw h (ground arith)
json_to_s-Reads w16 strtoull buf tok n h order small = rw h (ground arith)
json_to_s-Reads w32 strtoull buf tok n h order small = rw h (ground arith)

-- A token whose text strtoull does not read to its end, as that of a word, makes the narrow
-- conversions read a number that was not stored.
pub json_to_u_unread :
    (w : Width) (strtoull : Strtoull) (buf : Bytes) (tok : Token)
    → tok.start + (strtoull (drop tok.start buf)).used ≢ tok.end
    → (json_to_u w strtoull buf tok ≡ fault bad_read)
      × (json_to_s w strtoull buf tok ≡ fault bad_read)
unfolding json_to_u json_to_u64 json_to_s json_to_s64
json_to_u_unread w strtoull buf tok h =
    let miss : (tok.start + (strtoull (drop tok.start buf)).used == tok.end) ≡ false =
      ground arith in
    (rw miss, rw miss)
