-- ===== src/Logging.antt =====
-- log.h: which macros of a log level print, and the line that log_log prints; and the clock of sys.c.
--
-- The text is what vfprintf makes of the format and its arguments. The standard output, or the file that
-- log_set_fd puts in its place, takes every line.
pub mod Base
pub mod Clock
use atx_sys.Common.{
  ℕ, zero, suc, ◌-◌, ◌*◌, ◌+◌, ◌/◌, ◌%◌, ◌^◌, Bool, true, false, List, [], ◌∷◌, ◌++◌, ◌==◌, ◌||◌,
  ltb, leb, if◌then◌else◌, length, drop, Bytes, codes, decimal, ℤ, pos, negsuc, Result, ok, fault,
  bad_read, ◌>>=◌,
}

-- E_LOG_LEVEL, less NONE, which is only its end.
pub data Level : Type 0 where
  trace debug info warn error fatal : Level

abbrev pub rank : Level → ℕ
rank trace = 0
rank debug = 1
rank info = 2
rank warn = 3
rank error = 4
rank fatal = 5

-- Whether the macro of a level calls log_log under LOG_LEVEL.
unfoldable pub prints_at : ℕ → Level → Bool
prints_at log_level l =
    if log_level == 6
    then true
    else if log_level == 5
    then leb 1 (rank l)
    else if log_level == 4
    then leb 2 (rank l)
    else if log_level == 3
    then leb 3 (rank l)
    else if log_level == 2
    then leb 4 (rank l)
    else if log_level == 1
    then leb 5 (rank l)
    else false

-- An escape sequence that sets a colour.
abbrev pub escape : Bytes → Bytes
escape s = 27 ∷ s

abbrev pub reset : Bytes
reset = escape (codes "[0m")

abbrev pub red : Bytes
red = escape (codes "[31m")

abbrev pub green : Bytes
green = escape (codes "[32m")

abbrev pub yellow : Bytes
yellow = escape (codes "[33m")

abbrev pub magenta : Bytes
magenta = escape (codes "[35m")

abbrev pub cyan : Bytes
cyan = escape (codes "[36m")

abbrev pub white : Bytes
white = escape (codes "[37m")

abbrev pub light_blue : Bytes
light_blue = escape (codes "[94m")

-- level_names and level_colors
abbrev pub level_name : Level → Bytes
level_name trace = codes "TRACE"
level_name debug = codes "DEBUG"
level_name info = codes "INFO "
level_name warn = codes "WARN "
level_name error = codes "ERROR"
level_name fatal = codes "FATAL"

abbrev pub level_color : Level → Bytes
level_color trace = light_blue
level_color debug = cyan
level_color info = green
level_color warn = yellow
level_color error = red
level_color fatal = magenta

abbrev pub is_separator : ℕ → Bool
is_separator c = c == b'/' || c == b'\\'

-- The byte at an index of the text.
abbrev pub byte_at : Bytes → ℕ → ℕ
byte_at [] n = 0
byte_at (c ∷ s) zero = c
byte_at (c ∷ s) (suc n) = byte_at s n

-- The loop on flen: the last separator at or before it, or 0.
unfoldable pub last_separator : Bytes → ℕ → ℕ
last_separator file zero = zero
last_separator file (suc flen) =
    let earlier = last_separator file flen in
    if is_separator (byte_at file (suc flen)) then suc flen else earlier

-- strlen of the empty text, less one, wraps, and the loop starts outside of it.
unfoldable pub base_name : Bytes → Result Bytes
unfolding last_separator
base_name [] = fault bad_read
base_name (c ∷ s) =
    let flen = last_separator (c ∷ s) (length s) in
    ok (if ltb 1 flen then drop (flen + 1) (c ∷ s) else c ∷ s)

-- A text in a field of at least so many bytes, with the fill before it.
abbrev pub fill : ℕ → ℕ → Bytes
fill c zero = []
fill c (suc n) = c ∷ fill c n

abbrev pub padded : ℕ → ℕ → Bytes → Bytes
padded c width s = fill c (width - length s) ++ s

-- What log_log prints, at a tick of 0 or more.
unfoldable pub log_log : Level → ℕ → Bytes → ℕ → Bytes → Result Bytes
unfolding base_name
log_log level tick file line text = do
  name ← base_name file
  ok (
      (white ++ codes "=> ")
      ++ (reset
          ++ (padded b' ' 5 (decimal tick)
              ++ (b' ' ∷ level_color level
                  ++ (level_name level
                      ++ (b' ' ∷ reset
                          ++ (magenta
                              ++ (padded b' ' 14 name
                                  ++ (b':' ∷ padded b'0' 4 (decimal line)
                                      ++ (b' ' ∷ reset ++ (text ++ b'\n' ∷ [])))))))))))

-- What the macro of a level adds to the log.
unfoldable pub log_macro : ℕ → Level → ℕ → Bytes → ℕ → Bytes → Result Bytes
unfolding prints_at log_log
log_macro log_level level tick file line text =
    if prints_at log_level level then log_log level tick file line text else ok []
