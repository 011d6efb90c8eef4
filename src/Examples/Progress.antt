-- ===== src/Examples/Progress.antt =====
-- Three messages of the daemon.
use atx_sys.Common.{◌≡◌, refl, List, [], ◌∷◌, codes, pos, true, map}
use atx_sys.Updater.Progress.{Callbacks, Progress, Msg, take_msg}
use atx_sys.Updater.Progress.Follow.{follow, statuses, changes_or, follow-statuses}

abbrev all_set : Callbacks
all_set = record { status = true; source = true; info = true; step = true }

abbrev connected : Progress
connected = record { ipc = pos 3; status = 0; source = 0; step = 0; percent = 0 }

abbrev message : Msg
message = record {
  status = 2;
  source = 1;
  info = codes "run";
  cur_step = 1;
  nsteps = 2;
  cur_percent = 40;
  cur_image = codes "rootfs";
}

abbrev failure : Msg
failure = record message { status = 4 }

abbrev messages : List Msg
messages = message ∷ failure ∷ failure ∷ []

statuses_run : statuses (follow 4 all_set messages connected).1 ≡ 2 ∷ 4 ∷ 4 ∷ []
unfolding follow take_msg
statuses_run = refl

follow-statuses_example :
    statuses (follow 4 all_set messages connected).1 ≡ changes_or 4 0 (map (λ m. m.status) messages)
follow-statuses_example = follow-statuses 4 all_set messages connected refl
