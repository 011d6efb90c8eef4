-- ===== src/Examples/Numbers.antt =====
-- The number 300.
use atx_sys.Common.{
  ◌≡◌, ◌-◌, ◌%◌, ◌^◌, ◌||◌, not, refl, arith, some, codes, ok, pos, negsuc, ltb, if◌then◌else◌,
  false,
}
use atx_sys.Json.{Token, primitive}
use atx_sys.Json.Numbers.{Strtoull, json_to_u, json_to_s, w8, w16, bits, signed}
use atx_sys.Json.Numbers.Widths.{json_to_u-Reads, json_to_s-Reads}

abbrev parser : Strtoull
parser s = record { value = 300; used = 3; range = false }

abbrev number : Token
number = record { type = primitive; start = 1; end = 4; size = 0 }

json_to_u-Reads_example :
    json_to_u w8 parser (codes "[300]") number
    ≡ ok (if ltb 300 (2 ^ bits w8) then pos 0 else negsuc 0, some (300 % 2 ^ bits w8))
json_to_u-Reads_example = json_to_u-Reads w8 parser (codes "[300]") number 300 refl (omega arith)

json_to_s-Reads_example :
    json_to_s w16 parser (codes "[300]") number
    ≡ ok (
      if ltb 300 (2 ^ (bits w16 - 1)) || not (ltb 300 (2 ^ 64 - 2 ^ (bits w16 - 1)))
          then pos 0
          else negsuc 0,
      some (signed (bits w16) 300),
    )
json_to_s-Reads_example =
    json_to_s-Reads w16 parser (codes "[300]") number 300 refl (omega arith) (omega arith)
