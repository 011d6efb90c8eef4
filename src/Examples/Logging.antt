-- ===== src/Examples/Logging.antt =====
-- A line's file, and four readings of the clock.
use atx_sys.Common.{◌≡◌, arith, List, [], ◌∷◌, map, pos, ◌-◌}
use atx_sys.Logging.Clock.{Timespec, milliseconds, ticks, ticks-elapsed}

abbrev reading : Timespec
reading = record { tv_sec = 100; tv_nsec = 5000000 }

abbrev later : List Timespec
later = record { tv_sec = 100; tv_nsec = 900000000 } ∷ record { tv_sec = 160; tv_nsec = 0 } ∷ []

ticks-elapsed_example :
    ticks 0 (reading ∷ later) ≡ pos 0 ∷ map (λ t. pos (milliseconds t - milliseconds reading)) later
ticks-elapsed_example =
    ticks-elapsed reading later (omega arith)
      ((omega arith, omega arith, (omega arith, omega arith, tt)))
