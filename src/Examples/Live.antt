-- ===== src/Examples/Live.antt =====
-- An upload that the kill route cuts off, with browsers and signals in between.
use atx_sys.Common.{
  replicate, ℕ, ◌≡◌, refl, arith, true, false, List, [], ◌∷◌, ◌++◌, map, none, some, Option, Bytes,
  codes, pos, ℤ, Result, ok, fault,
}
use atx_sys.Updater.Progress.{Wire, Msg}
use atx_sys.Update.{part_begin, part_data, called, run}
use atx_sys.Http.Server.{Handler}
use atx_sys.Api.{Message}
use atx_sys.Live.{
  Incoming, requested, uploaded, Output, sigint, sighup, Host, Device, Turn, upload_of, live_loop,
}
use atx_sys.Live.Progress.{polls, live_loop-browsers}
use atx_sys.Live.Keeps.{Settled, writes_until, live_loop-Settled}
use atx_sys.Live.Sends.{AllSend, live_loop-AllSend}
use atx_sys.Program.{main, ran}
use atx_sys.Program.Start.{EndsAfter, main-first_start}
use atx_sys.Live.Whole.{Life}
use atx_sys.Examples.Program.{machine, opts}
use atx_sys.Live.Returns.{live_loop_returns}
use atx_sys.Live.Stops.{StopsAfter}
use atx_sys.Http.Broadcast.Tell.{texts, deliver_all}
use atx_sys.Live.Uploads.{effects, events_until, live_loop-run}
use atx_sys.Examples.Api.{disk}
use atx_sys.Examples.Loop.{listed, server, silent}
use atx_sys.Examples.Serve.{outside, about}
use atx_sys.Examples.Broadcast.{browser, download, print_plain, all_set, message}

abbrev pub host : Host
host = record { outside = outside; failure = 4; callbacks = all_set; vsnprintf = print_plain }

abbrev pub device : Device (List (Bytes × Handler))
device = record {
  http = server;
  settings = none;
  owned = false;
  num_data_consumed = pos 0;
  send_and_close = false;
  browsers = browser ∷ download ∷ [];
}

abbrev stop : Message
stop = record about {
  request = record { uri = codes "/api/v1/kill"; method = codes "GET"; body = [] };
}

-- The daemon connects, and then tells a message.
abbrev pub telling : Wire
telling = record { connect = pos 3; receive = λ k. (k, some message) }

abbrev pub turns : List Turn
turns =
    record {
      signals = sighup ∷ [];
      incoming = uploaded (part_begin (codes "fw.swu") (pos 6)) ∷ requested disk about ∷ [];
      wire = telling;
    }
    ∷ record {
      signals = [];
      incoming = uploaded (part_data (replicate 100 0) (pos 60)) ∷ [];
      wire = telling;
    }
    ∷ record {
      signals = [];
      incoming = requested disk stop ∷ uploaded (part_data (replicate 40 0) (pos 40)) ∷ [];
      wire = silent;
    }
    ∷ record { signals = sigint ∷ []; incoming = []; wire = silent }
    ∷ []

abbrev result : Result (ℕ × Device (List (Bytes × Handler)) × List Output)
result = live_loop listed host turns true device

abbrev pub value {ℓ} : {A : Type ℓ} → A → Result A → A
value a (ok b) = b
value a (fault e) = a

abbrev end : Device (List (Bytes × Handler))
end = (value (0, device, []) result).1

abbrev outs : List Output
outs = (value (0, device, []) result).2

looped : result ≡ ok (3, end, outs)
unfolding live_loop atx_sys.Live.after_signals atx_sys.Http.Server.Life.listen
    atx_sys.Http.Server.Life.http_init atx_sys.Live.poll atx_sys.Live.take_all
    atx_sys.Live.take_incoming atx_sys.Update.update_handler atx_sys.Updater.updater_init
    atx_sys.Updater.updater_write atx_sys.Updater.updater_active atx_sys.Updater.updater_status
    atx_sys.Api.respond atx_sys.Http.Server.ev_handler atx_sys.Http.Routes.resolve_route
    atx_sys.Http.Server.http_listen atx_sys.Http.Routes.http_use atx_sys.Common.bytes_eq
    atx_sys.Common.print_at_most atx_sys.Api.call_handler atx_sys.Live.follow_update
    atx_sys.Updater.Progress.updater_progress_poll atx_sys.Updater.Progress.take_msg
    atx_sys.Http.Broadcast.tell_all atx_sys.Http.Broadcast.updater_progress
    atx_sys.Http.Broadcast.notice_text atx_sys.Http.Broadcast.http_broadcast_json
    atx_sys.Updater.Progress.updater_progress_status_message
    atx_sys.Updater.Progress.updater_progress_source_message
    atx_sys.Updater.Progress.updater_progress_init atx_sys.Common.decimal
looped = refl

live_loop-run_example :
    run (upload_of device) (events_until 3 turns) ≡ ok (upload_of end, effects outs)
live_loop-run_example = live_loop-run listed host turns true device end 3 outs looped

live_loop-browsers_example :
    let (u, notices) = polls 4 all_set 3 turns device.http.updater_progress in
    (ss : List Bytes) × (texts notices ≡ ok ss)
    × (end.browsers ≡ map (deliver_all ss) device.browsers)
    × (end.http.updater_progress ≡ u)
live_loop-browsers_example =
    live_loop-browsers listed host turns true device end 3 outs (λ s l plain. refl)
      (
        λ k. (omega arith, omega arith, omega arith, omega arith),
        (λ k. (omega arith, omega arith, omega arith, omega arith), (λ k. tt, (λ k. tt, tt))),
      )
      refl looped

live_loop-Settled_example : Settled (writes_until 3 turns) device end
live_loop-Settled_example = live_loop-Settled listed host turns true device end 3 outs looped

live_loop-AllSend_example : AllSend host.outside outs
live_loop-AllSend_example = live_loop-AllSend listed host turns true device end 3 outs looped

live_loop_returns_example :
    (n : ℕ) × (end : Device (List (Bytes × Handler))) × (outs : List Output) × (live_loop listed
        host turns true device
      ≡ ok (n, end, outs))
    × StopsAfter turns n
unfolding atx_sys.Http.Server.http_listen atx_sys.Http.Server.Life.listen
    atx_sys.Http.Server.Life.http_init atx_sys.Common.bytes_eq
live_loop_returns_example =
    live_loop_returns listed host (λ s l plain. refl) turns device refl refl
      (
        (tt, ((omega arith, omega arith, tt), tt)),
        ((tt, tt), (((omega arith, omega arith, tt), (tt, tt)), (tt, tt))),
      )
      (
        λ k. (omega arith, omega arith, omega arith, omega arith),
        (λ k. (omega arith, omega arith, omega arith, omega arith), (λ k. tt, (λ k. tt, tt))),
      )

main-first_start_example :
    (life : Life (List (Bytes × Handler))) × (main listed machine host opts turns ≡ ran (ok life))
    × EndsAfter listed machine turns life
unfolding atx_sys.Common.bytes_eq
main-first_start_example =
    main-first_start listed host (λ s l plain. refl) machine opts turns (refl, (refl, (refl, tt)))
      refl refl refl refl refl refl refl refl
      (
        (tt, ((omega arith, omega arith, tt), tt)),
        ((tt, tt), (((omega arith, omega arith, tt), (tt, tt)), (tt, tt))),
      )
      (
        λ k. (omega arith, omega arith, omega arith, omega arith),
        (λ k. (omega arith, omega arith, omega arith, omega arith), (λ k. tt, (λ k. tt, tt))),
      )
