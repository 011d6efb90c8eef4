-- ===== src/Update/Overlap.antt =====
-- Two uploads at once: the server has one updater, whichever connection an event is of.
use atx_sys.Http.Codes.{http_error_message, http_error_code}
use atx_sys.Common.{
  ℕ, suc, ◌+◌, ◌%◌, ◌^◌, ◌≡◌, refl, ◌∙◌, Bool, true, false, List, [], ◌∷◌, ◌++◌, map, Bytes, ℤ, pos,
  ok, arith,
}
use atx_sys.Updater.{
  Updater, zeroed, ended, started, set_nonblocking, end_ipc, updater_init, updater_free,
  updater_active, updater_status,
}
use atx_sys.Update.{
  Event, part_begin, part_data, part_end, Upload, Effect, called, update_handler, run,
}
use atx_sys.Update.Session.{
  Piece, data_events, AreWrites, total, last_taken, receiving, run_silent, run-data, writes, answer,
}

-- No part is being received.
abbrev pub idle : ℤ → Bool → Bool → Upload
idle consumed owned closing = record {
  updater = zeroed;
  owned = owned;
  num_data_consumed = consumed;
  send_and_close = closing;
}

-- Data behind the end of a part is dropped.
run-idle :
    (consumed : ℤ) (owned closing : Bool) (ps : List Piece) (es : List Event)
    → run (idle consumed owned closing) (data_events ps ++ es)
      ≡ run (idle consumed owned closing) es
unfolding update_handler updater_active
run-idle consumed owned closing [] es = refl
run-idle consumed owned closing ((bytes, written) ∷ ps) es =
    run_silent (idle consumed owned closing) (idle consumed owned closing) (part_data bytes written)
      (data_events ps ++ es) refl
    ∙ run-idle consumed owned closing ps es

-- The second upload begins while the first is being received, the first ends next, and the second
-- goes on to its end; the pieces in between are of either.
abbrev pub overlapping : Bytes → ℕ → List Piece → Bytes → ℕ → List Piece → List Piece → List Event
overlapping first a ps second b qs rs =
    part_begin first (pos (suc a))
    ∷ (data_events ps
        ++ (part_begin second (pos (suc b))
            ∷ (data_events qs ++ (part_end first ∷ (data_events rs ++ (part_end second ∷ []))))))

abbrev pub begins : Updater → Bytes → ℕ → List Effect
begins u name n =
    map called (end_ipc u ++ started name (pos (suc n)) ∷ set_nonblocking (pos (suc n)) ∷ [])

run-ending :
    (b : ℕ) (len : ℕ) (consumed : ℤ) (closing : Bool) (first second : Bytes) (rs : List Piece)
    → run
        (receiving b len consumed closing)
        (part_end first ∷ (data_events rs ++ (part_end second ∷ [])))
      ≡ ok (
        idle consumed false true,
        answer len first ∷ called (ended (pos (suc b))) ∷ answer 0 second ∷ [],
      )
unfolding run update_handler updater_free updater_status http_error_message http_error_code
run-ending b len consumed closing first second rs =
    rw (run-idle consumed false true rs (part_end second ∷ []))

-- When a second upload begins while the first is being received, the daemon gives a positive handle
-- for each, and all writes behave as POSIX says and have fewer than 2^31 bytes each: the pieces
-- before are passed to the handle of the first, in their order; the handle of the first is ended
-- when the second begins; the pieces that come until the first ends, of either upload, are passed
-- to the handle of the second, which is ended with the first; and those behind that are passed to
-- no handle. The first is answered with 200 and the bytes that the writes took since the second
-- began, modulo 2^32, and the second with 200 and 0 bytes.
pub run-overlapping :
    (s : Upload) (first second : Bytes) (a b : ℕ) (ps qs rs : List Piece)
    → AreWrites ps
    → AreWrites qs
    → run s (overlapping first a ps second b qs rs)
      ≡ ok (
        idle (last_taken (last_taken s.num_data_consumed ps) qs) false true,
        begins s.updater first a
            ++ (writes a ps
                ++ (called (ended (pos (suc a))) ∷ begins zeroed second b
                    ++ (writes b qs
                        ++ (answer (total qs % 2 ^ 32) first
                            ∷ called (ended (pos (suc b)))
                            ∷ answer 0 second
                            ∷ [])))),
      )
unfolding run update_handler updater_init
run-overlapping s first second a b ps qs rs w x =
    let sum : (0 + total qs) % 2 ^ 32 ≡ total qs % 2 ^ 32 = omega arith in
    rw (
      run-data a 0 s.num_data_consumed s.send_and_close ps
          (part_begin second (pos (suc b))
            ∷ (data_events qs ++ (part_end first ∷ (data_events rs ++ (part_end second ∷ [])))))
          (omega arith) w,
      run-data b 0 (last_taken s.num_data_consumed ps) s.send_and_close qs
          (part_end first ∷ (data_events rs ++ (part_end second ∷ []))) (omega arith) x,
      run-ending b ((0 + total qs) % 2 ^ 32) (last_taken (last_taken s.num_data_consumed ps) qs)
          s.send_and_close first second rs,
      sum,
    )
