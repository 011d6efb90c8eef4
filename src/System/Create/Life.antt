-- ===== src/System/Create/Life.antt =====
-- A start, and the end after it.
use atx_sys.Common.{
  length, ◌<◌, ◌≡◌, refl, true, false, Option, none, some, List, ◌++◌, Bytes, ok, fault, bad_read,
  if◌then◌else◌, is_negative,
}
use atx_sys.Json.{Jsmn}
use atx_sys.Network.{NetworkConfig, print_network_config, print_network_interface}
use atx_sys.Network.RoundTrip.{SpansTexts}
use atx_sys.Env.{env_init, env_deinit}
use atx_sys.Env.Life.{exits, NoUseAfterExit, life-exits}
use atx_sys.Http.Routes.{RouteMap}
use atx_sys.Http.Server.{Handler, http_listen}
use atx_sys.Http.Server.Life.{http_init, http_serve, listen}
use atx_sys.System.{
  size, port_of, Config, enoent, read_user_config, write_interfaces, defaults, is_set, env_of,
  log_path,
}
use atx_sys.System.Boot.{default_text, PrintedTokens, read_user_config-print}
use atx_sys.System.Create.{Machine, new_atxsys, atxsys_create, atxsys_destroy, served}

module _ (ops : RouteMap Handler) where
  open ops use {Map, empty}

  served-listen :
      (nconfig www : Option Bytes)
      → ((listen ops (served ops www (http_init ops nconfig))).routes ≡ http_listen ops empty)
        × ((listen ops (served ops www (http_init ops nconfig))).shutdown ≡ false)
  unfolding listen http_init http_serve
  served-listen nconfig none = (refl, refl)
  served-listen nconfig (some www) = (refl, refl)

  pub new_atxsys-listens :
      (mach : Machine) (c : Config) (path : Bytes)
      → ((new_atxsys ops mach c path).http.routes ≡ http_listen ops empty)
        × ((new_atxsys ops mach c path).http.shutdown ≡ false)
  unfolding new_atxsys
  new_atxsys-listens mach c path = served-listen c.usr c.www

  pub atxsys_create-first :
      (jsmn : Jsmn) (mach : Machine) (c : Config)
      → mach.allocates ≡ true
      → mach.bound (port_of c) ≡ true
      → c.daemon ≡ false
      → is_set c.usr ≡ true
      → mach.user_file.stat ≡ enoent
      → mach.user_file.creates ≡ true
      → mach.user_file.prints ≡ true
      → mach.user_file.closes ≡ true
      → atxsys_create ops jsmn mach c
        ≡ ok (record {
          atxsys = some (new_atxsys ops mach c (log_path mach.cwd c.log));
          created = some default_text;
          interfaces =
              if mach.interfaces_open then some (print_network_interface defaults) else none;
          calls = (env_init mach.uboot (env_of c)).calls;
        })
  unfolding atxsys_create read_user_config write_interfaces
  atxsys_create-first jsmn mach c there bound front set missing creates prints closes =
      rw (set, missing, creates, prints, closes, front, there, bound)

  -- The calls of libubootenv from the start to the end.
  abbrev pub env_calls : Machine → Config → Bytes → List atx_sys.Env.Call
  env_calls mach c path =
      (env_init mach.uboot (env_of c)).calls
      ++ (atxsys_destroy ops (new_atxsys ops mach c path)).env

  -- From the allocation in atxsys_create to atxsys_destroy the context of libubootenv is released
  -- exactly once if the result of libuboot_initialize is not negative, and never otherwise, and no
  -- call follows the release; the log is closed exactly if it was opened.
  pub atxsys_destroy-new :
      (mach : Machine) (c : Config) (path : Bytes)
      → (exits (env_calls mach c path) ≡ (if is_negative mach.uboot.initialize.1 then 0 else 1))
        × NoUseAfterExit (env_calls mach c path)
        × ((atxsys_destroy ops (new_atxsys ops mach c path)).log ≡ (new_atxsys ops mach c path).log)
  unfolding atxsys_destroy new_atxsys
  atxsys_destroy-new mach c path =
      let (once, clean) = life-exits mach.uboot (env_of c) in (once, clean, refl)

  pub atxsys_create-unset :
      (jsmn : Jsmn) (mach : Machine) (c : Config)
      → is_set c.usr ≡ false
      → atxsys_create ops jsmn mach c ≡ fault bad_read
  unfolding atxsys_create read_user_config
  atxsys_create-unset jsmn mach c h = rw h

  -- A start that finds the file of settings as they are printed.
  pub atxsys_create-print :
      (jsmn : Jsmn) (mach : Machine) (conf : Config) (c : NetworkConfig) (m h i s g : Bytes)
      → SpansTexts c m h i s g
      → PrintedTokens jsmn c m h i s g
      → mach.allocates ≡ true
      → mach.bound (port_of conf) ≡ true
      → conf.daemon ≡ false
      → is_set conf.usr ≡ true
      → length (print_network_config c) < 2048
      → mach.user_file.stat ≡ size (length (print_network_config c))
      → mach.user_file.content ≡ some (print_network_config c)
      → atxsys_create ops jsmn mach conf
        ≡ ok (record {
          atxsys = some (new_atxsys ops mach conf (log_path mach.cwd conf.log));
          created = none;
          interfaces = if mach.interfaces_open then some (print_network_interface c) else none;
          calls = (env_init mach.uboot (env_of conf)).calls;
        })
  unfolding atxsys_create write_interfaces
  atxsys_create-print jsmn mach conf c m h i s g given tokens there bound front set short size_is
        content =
      let (after, e, same) =
        read_user_config-print jsmn conf.usr mach.user_file c mach.unset m h i s g given tokens set
          short size_is content in
      rw (e, front, there, bound, same)
