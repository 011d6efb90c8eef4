-- ===== src/Program/Start.antt =====
-- The program from its command line to the end of its loop.
use atx_sys.Common.{
  is_negative, ℕ, pos, ◌≡◌, refl, ap, ◌∙◌, true, false, ◌||◌, List, ◌∷◌, ◌++◌, Option, none, some,
  Bytes, ok, fault, bad_read, if◌then◌else◌,
}
use atx_sys.Network.{print_network_interface}
use atx_sys.Env.{env_init}
use atx_sys.Env.Life.{exits}
use atx_sys.Http.Format.{IsPlain}
use atx_sys.Http.Routes.{RouteMap}
use atx_sys.Http.Server.{Handler}
use atx_sys.System.{Config, enoent, defaults, is_set, log_path, port_of, env_of}
use atx_sys.System.Boot.{default_text}
use atx_sys.System.Create.{Started, Machine, Atxsys, new_atxsys, atxsys_destroy}
use atx_sys.System.Create.Life.{
  atxsys_destroy-new, atxsys_create-first, atxsys_create-unset, new_atxsys-listens,
}
use atx_sys.Live.{Host, Device, Turn}
use atx_sys.Live.Whole.{Life, live_run, first_device}
use atx_sys.Live.Harmless.{AreHarmlessTurns}
use atx_sys.Live.Progress.{AreFineWires}
use atx_sys.Live.Stops.{StopsAfter}
use atx_sys.Live.Returns.{live_loop_returns}
use atx_sys.Program.{print_usage_and_exit, Opt, initial, ran, exited_with, main, run_parsed, usage}
use atx_sys.Program.Options.{AreSettings, set_by, has_opt, args_parse-set_by, args_parse-exits}

module _ (ops : RouteMap Handler) where
  open ops use {Map}

  -- What the first start leaves, with the rounds of its loop.
  abbrev pub EndsAfter : Machine → List Turn → Life Map → Type 0
  EndsAfter mach turns life =
      (life.started.created ≡ some default_text)
      × (life.started.interfaces
          ≡ (if mach.interfaces_open then some (print_network_interface defaults) else none))
      × StopsAfter turns life.rounds
      × (exits (life.started.calls ++ life.released.env)
          ≡ (if is_negative mach.uboot.initialize.1 then 0 else 1))

  main-set_by :
      (mach : Machine) (h : Host) (opts : List Opt) (turns : List Turn)
      → AreSettings opts
      → main ops mach h opts turns ≡ ran (live_run ops mach h turns (set_by opts initial))
  unfolding main
  main-set_by mach h opts turns settings =
      ap (run_parsed ops mach h turns) (args_parse-set_by opts initial settings)

  module _ (h : Host)
      (prints_plain : (s : Bytes) (l : ℕ) → IsPlain s → h.vsnprintf s l ≡ ok s) where
    live_run-first :
        (mach : Machine) (c : Config) (turns : List Turn)
        → c.daemon ≡ false
        → is_set c.usr ≡ true
        → mach.allocates ≡ true
        → mach.bound (port_of c) ≡ true
        → mach.user_file.stat ≡ enoent
        → mach.user_file.creates ≡ true
        → mach.user_file.prints ≡ true
        → mach.user_file.closes ≡ true
        → AreHarmlessTurns turns
        → AreFineWires turns
        → (life : Life Map) × (live_run ops mach h turns c ≡ ok life) × EndsAfter mach turns life
    unfolding live_run atxsys_destroy
    live_run-first mach c turns front set there bound missing creates prints closes harmless fine =
        let path : Bytes = log_path mach.cwd c.log in
        let u : Atxsys Map = new_atxsys ops mach c path in
        let (listens, up) = new_atxsys-listens ops mach c path in
        let host : Host = record h { outside = record h.outside { valid = u.env.valid } } in
        let first : Device Map = first_device ops u (some default_text) in
        let (n, end, outs, looped, stops) =
          live_loop_returns ops host prints_plain turns first listens up harmless fine in
        let started : Started Map = record {
          atxsys = some u;
          created = some default_text;
          interfaces =
              if mach.interfaces_open then some (print_network_interface defaults) else none;
          calls = (env_init mach.uboot (env_of c)).calls;
        } in
        let life : Life Map = record {
          started = started;
          rounds = n;
          outputs = outs;
          settings = end.settings;
          released = atxsys_destroy ops (record u { http = end.http });
        } in
        (
          life,
          rw
              (atxsys_create-first ops h.outside.jsmn mach c there bound front set missing creates
                prints closes)
              (rw looped),
          (refl, refl, stops, (atxsys_destroy-new ops mach c path).0),
        )

    -- A command line of settings without -d and with a path left set, on a host with memory, whose
    -- port can be bound, and without a settings' file, which can be made, printed and closed,
    -- writes the default settings, prints their interfaces file if it opens, makes the rounds up to
    -- the first before whose test SIGINT came, that one left out, or the first in which a request
    -- asks for /api/v1/kill, that one included, or else all, and exits the context of libubootenv
    -- once if the library gave one; when vsnprintf prints a plain text as it is, each request has a
    -- path without a NUL, of fewer than 128 bytes, that is not that of the settings or of the
    -- environment, the daemon gives a handle for each part that begins, and the statuses and
    -- sources of its messages are in their enumerations and their infos plain, of at most 480
    -- bytes.
    pub main-first_start :
        (mach : Machine) (opts : List Opt) (turns : List Turn)
        → AreSettings opts
        → has_opt b'd' opts ≡ false
        → is_set (set_by opts initial).usr ≡ true
        → mach.allocates ≡ true
        → mach.bound (port_of (set_by opts initial)) ≡ true
        → mach.user_file.stat ≡ enoent
        → mach.user_file.creates ≡ true
        → mach.user_file.prints ≡ true
        → mach.user_file.closes ≡ true
        → AreHarmlessTurns turns
        → AreFineWires turns
        → (life : Life Map) × (main ops mach h opts turns ≡ ran (ok life))
          × EndsAfter mach turns life
    main-first_start mach opts turns settings front set there bound missing creates prints closes
          harmless fine =
        let alone : has_opt b'd' opts || false ≡ false = rw front in
        let (life, e, ends) =
          live_run-first mach (set_by opts initial) turns alone set there bound missing creates
            prints closes harmless fine in
        (life, main-set_by mach h opts turns settings ∙ ap ran e, ends)

  main-help :
      (mach : Machine) (h : Host) (before : List Opt) (arg : Option Bytes) (behind : List Opt)
      (turns : List Turn)
      → AreSettings before
      → main ops mach h (before ++ (b'h', arg) ∷ behind) turns ≡ exited_with usage (pos 0)
  unfolding main print_usage_and_exit
  main-help mach h before arg behind turns settings =
      ap (run_parsed ops mach h turns)
        (args_parse-exits before b'h' arg behind initial settings refl)

  -- A command line of settings after which the path of the settings is NULL or empty, as with -u at
  -- its end, makes the start close a file that was never opened.
  pub main-usr_missing :
      (mach : Machine) (h : Host) (opts : List Opt) (turns : List Turn)
      → AreSettings opts
      → is_set (set_by opts initial).usr ≡ false
      → main ops mach h opts turns ≡ ran (fault bad_read)
  unfolding live_run
  main-usr_missing mach h opts turns settings unset =
      main-set_by mach h opts turns settings
      ∙ rw (atxsys_create-unset ops h.outside.jsmn mach (set_by opts initial) unset)
