-- ===== src/Examples/Program.antt =====
-- A first start from a command line, and its end.
use atx_sys.Common.{◌≡◌, refl, true, List, [], ◌∷◌, some, codes, pos}
use atx_sys.Env.{Libuboot}
use atx_sys.System.Create.{Machine}
use atx_sys.Program.{Opt, settings, initial, args_parse}
use atx_sys.Program.Options.{set_by, args_parse-set_by}
use atx_sys.Examples.System.{missing, unset}

abbrev pub opts : List Opt
opts = (b'p', some (codes "80")) ∷ (b'w', some (codes "/www")) ∷ (b'p', some (codes "8081")) ∷ []

abbrev uboot : Libuboot
uboot = record { initialize = (some 1, pos 0); read_config = λ c p. pos 0; open_env = λ c. pos 0 }

abbrev pub machine : Machine
machine = record {
  user_file = missing;
  unset = unset;
  interfaces_open = true;
  cwd = codes "/root";
  fork = pos 0;
  setsid = pos 1;
  chdir = pos 0;
  allocates = true;
  log_opens = λ path. true;
  uboot = uboot;
  bound = λ port. true;
}

args_parse-set_by_example : args_parse opts initial ≡ settings (set_by opts initial)
args_parse-set_by_example = args_parse-set_by opts initial (refl, (refl, (refl, tt)))
