-- ===== src/Examples/Durable.antt =====
-- The settings through a run of the server and a restart, and a whole run of the program.
use atx_sys.Common.{
  ℕ, ◌≡◌, refl, sym, arith, true, false, List, [], ◌∷◌, ◌++◌, map, none, some, Option, Bytes, codes,
  length, append-nil, pos, is_negative, Result, ok, fault, if◌then◌else◌,
}
use atx_sys.Network.{NetworkConfig, print_network_config, print_network_interface}
use atx_sys.Network.RoundTrip.{SpansTexts}
use atx_sys.Http.Server.{Handler}
use atx_sys.System.{Config, size}
use atx_sys.System.Create.{Machine, Started, atxsys_create}
use atx_sys.Live.{Output, Device, live_loop}
use atx_sys.Live.Durable.{Reads, live_loop-put_get, live_loop-put_restart}
use atx_sys.Live.Whole.{Life, live_run, ReleasesAll, live_run-ReleasesAll}
use atx_sys.Program.{initial}
use atx_sys.Examples.Api.{disk, document, node, settings, settings_read, tokenizer}
use atx_sys.Examples.Loop.{listed}
use atx_sys.Examples.Program.{machine}
use atx_sys.Examples.Live.{host, device, turns, value}

abbrev stored : Device (List (Bytes × Handler))
stored = record device { settings = some (print_network_config settings) }

abbrev result : Result (ℕ × Device (List (Bytes × Handler)) × List Output)
result = live_loop listed host turns true stored

abbrev end : Device (List (Bytes × Handler))
end = (value (0, device, []) result).1

abbrev outs : List Output
outs = (value (0, device, []) result).2

ran_stored : result ≡ ok (3, end, outs)
unfolding live_loop atx_sys.Live.after_signals atx_sys.Http.Server.Life.listen
    atx_sys.Http.Server.Life.http_init atx_sys.Live.poll atx_sys.Live.take_all
    atx_sys.Live.take_incoming atx_sys.Update.update_handler atx_sys.Updater.updater_init
    atx_sys.Updater.updater_write atx_sys.Updater.updater_active atx_sys.Updater.updater_status
    atx_sys.Api.respond atx_sys.Http.Server.ev_handler atx_sys.Http.Routes.resolve_route
    atx_sys.Http.Server.http_listen atx_sys.Http.Routes.http_use atx_sys.Common.bytes_eq
    atx_sys.Common.print_at_most atx_sys.Api.call_handler atx_sys.Live.follow_update
    atx_sys.Updater.Progress.updater_progress_poll atx_sys.Updater.Progress.take_msg
    atx_sys.Http.Broadcast.tell_all atx_sys.Http.Broadcast.updater_progress
    atx_sys.Http.Broadcast.notice_text atx_sys.Http.Broadcast.http_broadcast_json
    atx_sys.Updater.Progress.updater_progress_status_message
    atx_sys.Updater.Progress.updater_progress_source_message
    atx_sys.Updater.Progress.updater_progress_init atx_sys.Common.decimal
ran_stored = refl

live_loop-put_get_example :
    Reads listed host disk
      (codes "PUT")
      document
      device
      stored
      (record { code = 200; body = codes "{\"error\":\"ok\"}" })
    × Reads listed host disk
        (codes "GET")
        []
        end
        end
        (record { code = 200; body = print_network_config settings })
unfolding atx_sys.Http.Server.http_listen atx_sys.Http.Server.Life.listen
    atx_sys.Http.Server.Life.http_init print_network_config atx_sys.Network.json_format
    atx_sys.Common.print_at_most atx_sys.Http.Codes.get_method
live_loop-put_get_example =
    live_loop-put_get listed host disk document 12 node settings turns true device end 3 outs refl
      refl settings_read refl refl refl (omega arith) (omega arith) refl ran_stored

spans :
    SpansTexts settings
      (codes "DHCP")
      (codes "gate")
      (codes "10.0.0.2")
      (codes "255.0.0.0")
      (codes "10.0.0.1")
spans = record {
  of_meth = record { text = omega arith; span = refl; post = _; reads = refl };
  of_hn = record { text = omega arith; span = refl; post = _; reads = refl };
  of_ip = record { text = omega arith; span = refl; post = _; reads = refl };
  of_sn = record { text = omega arith; span = refl; post = _; reads = refl };
  of_gw = record { text = omega arith; span = refl; post = _; reads = refl };
}

abbrev found : Machine
found = record machine {
  user_file = record machine.user_file {
    stat = size (length (print_network_config settings));
    content = end.settings;
  };
}

live_loop-put_restart_example :
    Reads listed host disk
      (codes "PUT")
      document
      device
      stored
      (record { code = 200; body = codes "{\"error\":\"ok\"}" })
    × ((next : Started (List (Bytes × Handler))) × (atxsys_create listed tokenizer found initial
          ≡ ok next)
        × (next.created ≡ none)
        × (next.interfaces ≡ some (print_network_interface settings)))
unfolding atx_sys.Http.Server.http_listen atx_sys.Http.Server.Life.listen
    atx_sys.Http.Server.Life.http_init atx_sys.Http.Codes.get_method print_network_config
    atx_sys.Network.json_format atx_sys.Common.print_at_most
live_loop-put_restart_example =
    live_loop-put_restart listed host disk document 12 node settings turns true device end 3 outs
      found initial (codes "DHCP") (codes "gate") (codes "10.0.0.2") (codes "255.0.0.0")
      (codes "10.0.0.1") refl refl settings_read refl refl refl refl ran_stored spans (12, refl)
      refl refl refl refl (omega arith) refl refl

abbrev no_life : Life (List (Bytes × Handler))
no_life = record {
  started = record { atxsys = none; created = none; interfaces = none; calls = [] };
  rounds = 0;
  outputs = [];
  settings = none;
  released = record { http = ([], []); env = []; log = false };
}

abbrev life : Life (List (Bytes × Handler))
life = value no_life (live_run listed machine host turns initial)

lived : live_run listed machine host turns initial ≡ ok life
unfolding live_loop atx_sys.Live.after_signals atx_sys.Http.Server.Life.listen
    atx_sys.Http.Server.Life.http_init atx_sys.Live.poll atx_sys.Live.take_all
    atx_sys.Live.take_incoming atx_sys.Update.update_handler atx_sys.Updater.updater_init
    atx_sys.Updater.updater_write atx_sys.Updater.updater_active atx_sys.Updater.updater_status
    atx_sys.Api.respond atx_sys.Http.Server.ev_handler atx_sys.Http.Routes.resolve_route
    atx_sys.Http.Server.http_listen atx_sys.Http.Routes.http_use atx_sys.Common.bytes_eq
    atx_sys.Common.print_at_most atx_sys.Api.call_handler atx_sys.Live.follow_update
    atx_sys.Updater.Progress.updater_progress_poll atx_sys.Updater.Progress.take_msg
    atx_sys.Http.Broadcast.tell_all atx_sys.Http.Broadcast.updater_progress
    atx_sys.Http.Broadcast.notice_text atx_sys.Http.Broadcast.http_broadcast_json
    atx_sys.Updater.Progress.updater_progress_status_message
    atx_sys.Updater.Progress.updater_progress_source_message
    atx_sys.Updater.Progress.updater_progress_init atx_sys.Common.decimal live_run
    atx_sys.System.Create.atxsys_create atx_sys.System.read_user_config
    atx_sys.System.Create.new_atxsys atx_sys.System.daemonize atx_sys.Env.env_init
    atx_sys.System.log_path
lived = refl

live_run-ReleasesAll_example : ReleasesAll listed machine initial life
live_run-ReleasesAll_example = live_run-ReleasesAll listed machine host turns initial life lived
