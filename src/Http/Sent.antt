-- ===== src/Http/Sent.antt =====
-- What http.c writes on a connection: the header of a response, and the text behind it.
--
-- mg_printf appends to the connection. The text is what vsnprintf made of a format and its arguments,
-- and its length is passed as a uint32_t and printed with %d.
pub mod Digits
pub mod Client
use atx_sys.Common.{ℕ, ◌%◌, ◌^◌, List, [], ◌∷◌, ◌++◌, length, Bytes, codes, decimal, decimal_as_int}
use atx_sys.Http.{Response}

-- HTTP_FORMAT_HEADERS
unfoldable pub headers : ℕ → Bytes → Bytes → ℕ → Bytes → Bytes
headers code connection type l extra =
    codes "HTTP/1.0 "
    ++ (decimal code
        ++ (codes " \r\nServer: Altronix atx-update Embedded Web Server\r\nConnection: "
            ++ (connection
                ++ (codes "\r\nContent-Type: "
                    ++ (type
                        ++ (codes "\r\nContent-Length: "
                            ++ (decimal_as_int l
                                ++ (codes "\r\n"
                                    ++ (extra
                                        ++ codes
                                            "X-Frame-Options: SAMEORIGIN\r\nContent-Security-Policy: script-src 'self' 'unsafe-eval';\r\n\r\n")))))))))

unfoldable pub c_vprintf : ℕ → Bytes → ℕ → Bytes → Bytes
unfolding headers
c_vprintf code type l text = headers code (codes "keep-alive") type l [] ++ text

unfoldable pub http_printf : ℕ → Bytes → Bytes → Bytes
http_printf code type text = c_vprintf code type (length text % 2 ^ 32) text

unfoldable pub http_printf_json : ℕ → Bytes → Bytes
http_printf_json code text = c_vprintf code (codes "application/json") (length text % 2 ^ 32) text

-- A response as it is sent.
abbrev pub sent : Response → Bytes
sent r = http_printf_json r.code r.body
