-- ===== src/Examples/Upload.antt =====
-- An upload of two pieces, one of which the daemon refuses.
use atx_sys.Common.{
  replicate, arith, ◌≡◌, ◌%◌, ◌^◌, refl, List, [], ◌∷◌, ◌++◌, codes, ok, pos, negsuc, true, false,
  map,
}
use atx_sys.Updater.{status_ok, zeroed, ended, started, set_nonblocking, end_ipc}
use atx_sys.Update.{Event, part_begin, part_end, Upload, called, run}
use atx_sys.Update.Session.{answer, writes, Piece, data_events, run-upload}
use atx_sys.Update.Overlap.{idle, overlapping, begins, run-overlapping}
use atx_sys.Update.Answers.{StaysOk, run-StaysOk}

-- The handle 5 is still open.
abbrev server : Upload
server = record {
  updater = record { ipc = pos 5; len = 77; status = status_ok };
  owned = false;
  num_data_consumed = pos 0;
  send_and_close = false;
}

abbrev pieces : List Piece
pieces = (replicate 100 0, pos 60) ∷ (replicate 40 1, negsuc 0) ∷ []

abbrev events : List Event
events =
    part_begin (codes "fw.swu") (pos 6) ∷ (data_events pieces ++ part_end (codes "fw.swu") ∷ [])

run-upload_example :
    run server events
    ≡ ok (
      record { updater = zeroed; owned = false; num_data_consumed = pos 0; send_and_close = true },
      map called (
            end_ipc server.updater
            ++ started (codes "fw.swu") (pos 6) ∷ set_nonblocking (pos 6) ∷ [])
          ++ (writes 5 pieces
              ++ (answer (60 % 2 ^ 32) (codes "fw.swu") ∷ called (ended (pos 6)) ∷ [])),
    )
run-upload_example = run-upload server (codes "fw.swu") 5 pieces (omega arith)

run-StaysOk_example : StaysOk (run server events)
run-StaysOk_example = run-StaysOk server events refl

run-overlapping_example :
    run server (overlapping (codes "a.swu") 6 pieces (codes "b.swu") 8 pieces pieces)
    ≡ ok (
      idle (pos 0) false true,
      begins server.updater (codes "a.swu") 6
          ++ (writes 6 pieces
              ++ (called (ended (pos 7)) ∷ begins zeroed (codes "b.swu") 8
                  ++ (writes 8 pieces
                      ++ (answer (60 % 2 ^ 32) (codes "a.swu")
                          ∷ called (ended (pos 9))
                          ∷ answer 0 (codes "b.swu")
                          ∷ [])))),
    )
run-overlapping_example =
    run-overlapping server (codes "a.swu") (codes "b.swu") 6 8 pieces pieces pieces (omega arith)
      (omega arith)
