-- ===== src/System.antt =====
-- atxsys.c: the settings at start, the interfaces file, the path of the log, and the daemon.
--
-- What the system decides is an argument: what `stat` gives, whether a file opens, how many bytes are
-- read, whether printing succeeds, and the results of fork, setsid and chdir. The buffer of 2048
-- bytes is zeroed, so the bytes that were read are a C string in it.
pub mod Boot
pub mod Log
pub mod Create
use atx_sys.Common.{
  ℕ, ◌-◌, Bool, true, false, not, ◌==◌, ltb, if◌then◌else◌, List, [], ◌∷◌, ◌++◌, Option, none, some,
  Bytes, codes, length, take, ℤ, pos, negsuc, is_negative, Result, ok, fault, bad_read, exited,
  ◌>>=◌, ◌||◌,
}
use atx_sys.Json.{JsmnValue, Jsmn}
use atx_sys.Network.{
  NetworkConfig, parse_network_config, print_network_config, print_network_interface,
}

-- atxsys_config_s: pointers to C strings.
pub record Config : Type 0 where
  pub log : Option Bytes
  pub env : Option Bytes
  pub usr : Option Bytes
  pub port : Option Bytes
  pub www : Option Bytes
  pub daemon : Bool

-- stat: the size, or an error, which is ENOENT or another.
pub data Stat : Type 0 where
  size : ℕ → Stat
  enoent : Stat
  other_error : Stat

-- The settings' file: `stat`, its content if it opens for reading, and if it opens for "w+" whether
-- fprintf and fclose succeed, and what it holds if they do not.
pub record UserFile : Type 0 where
  pub stat : Stat
  pub content : Option Bytes
  pub creates : Bool
  pub prints : Bool
  pub closes : Bool
  pub partial : Bytes

-- ATX_SYS_ENV_CONFIG_FILE, ATX_SYS_CONFIG_FILE, ATX_SYS_LOG_FILE_DEFAULT and ATX_SYS_HTTP_PORT, where
-- the build gives no others.
abbrev pub env_config_file : Bytes
env_config_file = codes "/etc/fw_env.config"

abbrev pub config_file : Bytes
config_file = codes "/etc/atx.config.sys.json"

abbrev pub log_file_default : Bytes
log_file_default = codes "/var/log/atx-sys.log"

abbrev pub http_port : Bytes
http_port = codes "8080"

abbrev pub value_of : Bytes → JsmnValue
value_of s = record { p = s; len = length s }

abbrev pub defaults : NetworkConfig
defaults = record {
  meth = value_of (codes "DHCP");
  ip = value_of (codes "192.168.168.168");
  sn = value_of (codes "255.255.255.0");
  gw = value_of (codes "192.168.168.1");
  hn = value_of (codes "LinQM5");
}

-- c->usr && *c->usr
abbrev pub is_set : Option Bytes → Bool
is_set none = false
is_set (some []) = false
is_set (some (c ∷ s)) = true

-- What was read is parsed; any error is -1.
unfoldable pub parse_read : Jsmn → ℕ → Bytes → NetworkConfig → Result (ℤ × NetworkConfig)
parse_read jsmn n b c = do
  (err, c') ← parse_network_config jsmn b n c
  ok (if err_is_zero err then pos 0 else negsuc 0, c')
  where
    err_is_zero : ℤ → Bool
    err_is_zero (pos n) = n == 0
    err_is_zero (negsuc n) = false

-- fread of the whole file.
unfoldable pub read_file : Jsmn → ℕ → Bytes → NetworkConfig → Result (ℤ × NetworkConfig)
read_file jsmn n content c =
    if not (length (take n content) == n)
    then ok (negsuc 0, c)
    else parse_read jsmn n (take n content) c

-- The result, the settings, and the text that was written to a new file. The settings are given as
-- they are at the call: the caller does not set them. The result of fclose is not tested.
unfoldable pub read_user_config :
    Jsmn → Option Bytes → UserFile → NetworkConfig → Result (ℤ × NetworkConfig × Option Bytes)
read_user_config jsmn usr f c =
    if not (is_set usr) then fault bad_read else with_stat f.stat f.content
  where
    with_stat : Stat → Option Bytes → Result (ℤ × NetworkConfig × Option Bytes)
    with_stat (size n) (some content) =
        if ltb n 2048
        then (do (err, c') ← read_file jsmn n content c; ok (err, c', none))
        else ok (pos 0, c, none)
    with_stat (size n) none = ok (pos 0, c, none)
    with_stat enoent content =
        if not f.creates
        then ok (negsuc 0, c, none)
        else if f.prints
        then ok
            (pos 0, defaults, some (if f.closes then print_network_config defaults else f.partial))
        else ok (negsuc 0, defaults, some f.partial)
    with_stat other_error content = ok (negsuc 0, c, none)

-- What `atxsys_create` prints to /etc/network/interfaces, if it opens. Whether the file then holds it
-- is not tested.
unfoldable pub write_interfaces : Bool → ℤ × NetworkConfig × Option Bytes → Option Bytes
write_interfaces opens (pos n, c, created) =
    if n == 0 then (if opens then some (print_network_interface c) else none) else none
write_interfaces opens (negsuc n, c, created) = none

abbrev pub is_absolute : Bytes → Bool
is_absolute [] = false
is_absolute (c ∷ s) = c == b'/' || c == b'\\'

-- The directory with its slash, where the slash has room in the other half of the buffer.
abbrev pub from_directory : Bytes → Bytes
from_directory cwd = cwd ++ (if ltb (length cwd) (2048 - length cwd) then b'/' ∷ [] else [])

-- The path of the log in the buffer of 2048 bytes, from the working directory.
unfoldable pub log_path : Bytes → Option Bytes → Bytes
log_path cwd none = []
log_path cwd (some log) =
    let start : Bytes = if is_absolute log then [] else from_directory cwd in
    start ++ take (2048 - length start - 1) log

-- fork, setsid and chdir.
unfoldable pub daemonize : ℤ → ℤ → ℤ → Result (Unit {0})
daemonize (negsuc n) session directory = fault exited
daemonize (pos n) session directory =
    if not (n == 0)
    then fault exited
    else if is_negative session
    then fault exited
    else if is_negative directory
    then fault exited
    else ok tt

-- The port and the environment's file, or their defaults.
abbrev pub or_default : Bytes → Option Bytes → Bytes
or_default d none = d
or_default d (some s) = s

abbrev pub port_of : Config → Bytes
port_of c = or_default http_port c.port

abbrev pub env_of : Config → Bytes
env_of c = or_default env_config_file c.env
