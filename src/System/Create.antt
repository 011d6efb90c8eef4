-- ===== src/System/Create.antt =====
-- atxsys.c: what atxsys_create starts, and what atxsys_destroy releases.
--
-- What the system decides during a start is the argument `Machine`, with what stood on the stack where
-- the settings are kept. Once the log is open, log_set_fd sends what is logged to it.
pub mod Life
use atx_sys.Common.{
  Bool, true, false, not, List, [], Option, none, some, Bytes, ℤ, Result, ok, ◌>>=◌, if◌then◌else◌,
  ◌&&◌, fault, bad_read, bad_write,
}
use atx_sys.Json.{Jsmn}
use atx_sys.Network.{NetworkConfig}
use atx_sys.Env.{Env, Libuboot, env_init, env_deinit}
use atx_sys.Updater.{Call}
use atx_sys.Http.Routes.{RouteMap}
use atx_sys.Http.Server.{Handler}
use atx_sys.Http.Server.Life.{Http, http_init, http_serve, listen, http_deinit}
use atx_sys.System.{
  Config, UserFile, read_user_config, write_interfaces, log_path, daemonize, env_of, port_of,
}

pub record Machine : Type 0 where
  pub user_file : UserFile
  pub unset : NetworkConfig
  pub interfaces_open : Bool
  pub cwd : Bytes
  pub fork : ℤ
  pub setsid : ℤ
  pub chdir : ℤ
  pub allocates : Bool
  pub log_opens : Bytes → Bool
  pub uboot : Libuboot
  pub bound : Bytes → Bool

-- atxsys_s: whether u->log is a file.
pub record Atxsys (M : Type 0) : Type 0 where
  pub env : Env
  pub http : Http M
  pub log : Bool

-- The object, if it is allocated, and what a start wrote: a new settings' file, and the interfaces.
pub record Started (M : Type 0) : Type 0 where
  pub atxsys : Option (Atxsys M)
  pub created : Option Bytes
  pub interfaces : Option Bytes
  pub calls : List atx_sys.Env.Call

abbrev pub is_empty : Bytes → Bool
is_empty [] = true
is_empty _ = false

-- mg_set_protocol_http_websocket writes to the connection that mg_bind gave, which is NULL where the
-- port could not be bound.
abbrev pub bind : Bool → Result (Unit {0})
bind bound = if bound then ok tt else fault bad_write

-- The child goes on.
abbrev pub detached : Machine → Config → Result (Unit {0})
detached mach c = if c.daemon then daemonize mach.fork mach.setsid mach.chdir else ok tt

-- What is released: the handles of the update and of its progress, the library's context, and the log.
pub record Released : Type 0 where
  pub http : List Call × List ℤ
  pub env : List atx_sys.Env.Call
  pub log : Bool

module _ (ops : RouteMap Handler) where
  open ops use {Map}

  abbrev pub served : Option Bytes → Http Map → Http Map
  served none s = s
  served (some www) s = http_serve ops www s

  -- The object is used without a test.
  abbrev pub object : Option (Atxsys Map) → Result (Atxsys Map)
  object none = fault bad_read
  object (some u) = ok u

  -- The object behind malloc, with the log's path.
  unfoldable pub new_atxsys : Machine → Config → Bytes → Atxsys Map
  new_atxsys mach c path = record {
    env = (env_init mach.uboot (env_of c)).env;
    http = listen ops (served c.www (http_init ops c.usr));
    log = not (is_empty path) && mach.log_opens path;
  }

  unfoldable pub atxsys_create : Jsmn → Machine → Config → Result (Started Map)
  unfolding new_atxsys
  atxsys_create jsmn mach c = do
    read ← read_user_config jsmn c.usr mach.user_file mach.unset
    _ ← detached mach c
    let interfaces : Option Bytes = write_interfaces mach.interfaces_open read
    let with_object : Started Map = record {
      atxsys = some (new_atxsys mach c (log_path mach.cwd c.log));
      created = read.2;
      interfaces = interfaces;
      calls = (env_init mach.uboot (env_of c)).calls;
    }
    let without : Started Map = record {
      atxsys = none;
      created = read.2;
      interfaces = interfaces;
      calls = [];
    }
    let listening : Result (Started Map) = (do _ ← bind (mach.bound (port_of c)); ok with_object)
    if mach.allocates then listening else ok without

  unfoldable pub atxsys_destroy : Atxsys Map → Released
  atxsys_destroy u = record {
    http = http_deinit ops u.http;
    env = (env_deinit u.env).1;
    log = u.log;
  }

  unfoldable pub atxsys_is_running : Atxsys Map → Bool
  atxsys_is_running u = not u.http.shutdown
