-- ===== src/RouteNetwork/ReadBack.antt =====
-- What a GET answers after a PUT.
use atx_sys.Common.{ℕ, suc, ◌≡◌, true, ◌∷◌, ◌++◌, Option, some, Bytes, codes, ok, fault, bad_read}
use atx_sys.Json.{Jsmn, parsed}
use atx_sys.Json.Layout.{Node, layout}
use atx_sys.Network.{NetworkConfig, print_network_config}
use atx_sys.Network.Parse.{settings_of}
use atx_sys.Http.Codes.{Method}
use atx_sys.Http.Format.{IsPlain, printf_only-plain, printf_only-conversion, is_one_of, conversions}
use atx_sys.RouteNetwork.{Disk, get, put, route_network}
use atx_sys.RouteNetwork.Put.{Puts, put-Puts}

-- Given the tokens of the body's document with its five settings, a PUT that the disk takes answers
-- 200, and a GET behind it answers 200 with the settings in the file's format, if that text has no
-- percent sign and no NUL.
pub route_network_get-put :
    (jsmn : Jsmn) (disk : Disk) (file : Option Bytes) (l : ℕ) (b : Bytes) (n : ℕ) (v : Node)
    (c : NetworkConfig)
    → jsmn b l 256 ≡ parsed (suc n) (layout v)
    → settings_of b v ≡ some c
    → disk.opens ≡ true
    → disk.prints ≡ true
    → disk.closes ≡ true
    → IsPlain (print_network_config c)
    → let text = print_network_config c in
      (route_network jsmn disk file Method.put l b
        ≡ ok (some text, some (record { code = 200; body = codes "{\"error\":\"ok\"}" })))
      × (route_network jsmn disk (some text) Method.get l b
          ≡ ok (some text, some (record { code = 200; body = text })))
unfolding route_network get
route_network_get-put jsmn disk file l b n v c tokens found opens prints closes plain =
    let done : Puts disk file (some c) (put jsmn disk file l b) =
      rw found at (put-Puts jsmn disk file l b n v tokens) in
    (
      rw (done, opens, prints, closes),
      rw (printf_only-plain disk.special (print_network_config c) plain),
    )

-- When the first percent sign of the settings' file is followed by one of the letters d, i, o, u,
-- x, X, e, E, f, F, g, G, a, A, c, s, p and n, with no NUL before it, every GET reads an argument
-- that was not passed.
pub route_network_directive :
    (jsmn : Jsmn) (disk : Disk) (before behind : Bytes) (c l : ℕ) (b : Bytes)
    → IsPlain before
    → is_one_of conversions c ≡ true
    → route_network jsmn disk (some (before ++ b'%' ∷ c ∷ behind)) Method.get l b ≡ fault bad_read
unfolding route_network get
route_network_directive jsmn disk before behind c l b plain takes =
    rw (printf_only-conversion disk.special before c behind plain takes)
