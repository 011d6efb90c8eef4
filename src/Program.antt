-- ===== src/Program.antt =====
-- app/main.c: the options of the command line, and the program from them to the end of its loop.
--
-- getopt is left out: the command line is what it returns, one option after the other, each with what
-- argv[optind] is then, which is none at the end of argv.
pub mod Options
pub mod Start
use atx_sys.Common.{
  ℕ, Bool, true, false, List, [], ◌∷◌, Option, none, some, Bytes, codes, ℤ, pos, negsuc, Result, ok,
  ◌++◌, fault, bad_read, ◌>>=◌, ◌==◌, ◌||◌, if◌then◌else◌,
}
use atx_sys.Http.Routes.{RouteMap}
use atx_sys.Http.Server.{Handler}
use atx_sys.System.{Config, env_config_file, config_file, log_file_default, http_port}
use atx_sys.System.Create.{Machine}
use atx_sys.Live.{Host, Turn}
use atx_sys.Live.Whole.{Life, live_run}

-- What getopt returned, and argv[optind].
abbrev pub Opt : Type 0
Opt = ℕ × Option Bytes

-- The settings to go on with, or the code that the program exits with.
pub data Parsed : Type 0 where
  settings : Config → Parsed
  exits : ℤ → Parsed

-- Before the command line.
abbrev pub initial : Config
initial = record {
  log = none;
  env = some env_config_file;
  usr = some config_file;
  port = some http_port;
  www = none;
  daemon = false;
}

unfoldable pub take_opt : ℕ → Option Bytes → Config → Parsed
take_opt opt arg c =
    if opt == b'p'
    then settings (record c { port = arg })
    else if opt == b'e'
    then settings (record c { env = arg })
    else if opt == b'u'
    then settings (record c { usr = arg })
    else if opt == b'd'
    then settings (record c { daemon = true })
    else if opt == b'l'
    then settings (record c { log = arg })
    else if opt == b'w'
    then settings (record c { www = arg })
    else if opt == b'?' || opt == b'h'
    then exits (pos 0)
    else exits (negsuc 0)

abbrev pub go_on : Parsed → (Config → Parsed) → Parsed
go_on (settings c) k = k c
go_on (exits n) k = exits n

unfoldable pub args_parse : List Opt → Config → Parsed
unfolding take_opt
args_parse [] c = settings c
args_parse ((opt, arg) ∷ opts) c = go_on (take_opt opt arg c) (args_parse opts)

-- exit with a code, behind what was printed, or the run.
pub data Ending (M : Type 0) : Type 0 where
  exited_with : Bytes → ℤ → Ending M
  ran : Result (Life M) → Ending M

-- A line of the help menu.
abbrev pub line : Bytes → Bytes
line s = s ++ b'\n' ∷ []

-- A line that ends in a default.
abbrev pub line_with : Bytes → Bytes → Bytes
line_with s default = line (s ++ (codes " (default: " ++ (default ++ codes ")")))

abbrev pub usage : Bytes
usage =
    line (codes "Usage: atx-update [-pchdl]")
    ++ (line_with (codes "  -p  HTTP port") http_port
        ++ (line_with (codes "  -e  Bootloader Environment") env_config_file
            ++ (line_with (codes "  -u  User configuration") config_file
                ++ (line (codes "  -d  Detatch in daemon mode")
                    ++ (line_with (codes "  -l  Log file") log_file_default
                        ++ (line (codes "  -w  Serve webpage root dir")
                            ++ line (codes "  -h  Print this help menu")))))))

unfoldable pub print_usage_and_exit : {M : Type 0} → ℤ → Ending M
print_usage_and_exit code = exited_with usage code

module _ (ops : RouteMap Handler) where
  open ops use {Map}

  abbrev pub run_parsed : Machine → Host → List Turn → Parsed → Ending Map
  run_parsed mach h turns (settings c) = ran (live_run ops mach h turns c)
  run_parsed mach h turns (exits n) = print_usage_and_exit n

  unfoldable pub main : Machine → Host → List Opt → List Turn → Ending Map
  unfolding args_parse
  main mach h opts turns = run_parsed mach h turns (args_parse opts initial)
