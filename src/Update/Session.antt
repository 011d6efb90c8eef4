-- ===== src/Update/Session.antt =====
-- An upload from its first event to its last.
use atx_sys.Http.Codes.{http_error_message, http_error_code}
use atx_sys.Common.{
  sym, ap, length, codes, decimal_as_int, ℕ, suc, ◌+◌, ◌%◌, ◌^◌, ◌<◌, ◌≡◌, refl, ◌∙◌, Bool, true,
  false, List, [], ◌∷◌, ◌++◌, map, Bytes, ℤ, pos, Result, ok, fault, ◌>>=◌, arith,
}
use atx_sys.Updater.{
  status_ok, zeroed, ended, started, set_nonblocking, wrote, end_ipc, updater_init, updater_free,
  updater_active, updater_status,
}
use atx_sys.Updater.Write.{WriteResult, taken, updater_write-taken}
use atx_sys.Update.{
  Event, part_begin, part_data, part_end, Upload, Effect, called, responded, update_handler, run,
}

-- A piece of data, and what `write` returned for it.
abbrev pub Piece : Type 0
Piece = Bytes × ℤ

abbrev pub data_events : List Piece → List Event
data_events [] = []
data_events ((bytes, written) ∷ ps) = part_data bytes written ∷ data_events ps

abbrev pub AreWrites : List Piece → Type 0
AreWrites [] = Unit {0}
AreWrites ((bytes, written) ∷ ps) =
    (length bytes < 2 ^ 31) × WriteResult (length bytes) written × AreWrites ps

abbrev pub total : List Piece → ℕ
total [] = 0
total ((bytes, written) ∷ ps) = taken written + total ps

-- The last of the results, or what stood there before.
abbrev pub last_taken : ℤ → List Piece → ℤ
last_taken l [] = l
last_taken l ((bytes, written) ∷ ps) = last_taken (pos (taken written)) ps

-- A part is being received: the daemon's handle is n + 1.
abbrev pub receiving : ℕ → ℕ → ℤ → Bool → Upload
receiving n len consumed closing = record {
  updater = record { ipc = pos (suc n); len = len; status = status_ok };
  owned = true;
  num_data_consumed = consumed;
  send_and_close = closing;
}

bind-eta : (r : Result (Upload × List Effect)) → (r >>= λ (s, fx). ok (s, fx)) ≡ r
bind-eta (ok (s, fx)) = refl
bind-eta (fault e) = refl

pub run_silent :
    (s s' : Upload) (e : Event) (es : List Event)
    → update_handler s e ≡ ok (s', [])
    → run s (e ∷ es) ≡ run s' es
unfolding run
run_silent s s' e es h = rw h (bind-eta (run s' es))

-- The calls that pass the pieces to the handle n + 1, in their order.
abbrev pub writes : ℕ → List Piece → List Effect
writes n [] = []
writes n ((bytes, written) ∷ ps) = called (wrote (pos (suc n)) bytes) ∷ writes n ps

-- A run behind what was done already.
abbrev pub behind : List Effect → Result (Upload × List Effect) → Result (Upload × List Effect)
behind fx (ok (s, rest)) = ok (s, fx ++ rest)
behind fx (fault e) = fault e

bind-behind :
    (fx : List Effect) (r : Result (Upload × List Effect))
    → (r >>= λ (s, rest). ok (s, fx ++ rest)) ≡ behind fx r
bind-behind fx (ok (s, rest)) = refl
bind-behind fx (fault e) = refl

behind-none : (r : Result (Upload × List Effect)) → behind [] r ≡ r
behind-none (ok (s, rest)) = refl
behind-none (fault e) = refl

behind-behind :
    (x : Effect) (fx : List Effect) (r : Result (Upload × List Effect))
    → behind (x ∷ []) (behind fx r) ≡ behind (x ∷ fx) r
behind-behind x fx (ok (s, rest)) = refl
behind-behind x fx (fault e) = refl

run_step :
    (s s' : Upload) (e : Event) (fx : List Effect) (es : List Event)
    → update_handler s e ≡ ok (s', fx)
    → run s (e ∷ es) ≡ behind fx (run s' es)
unfolding run
run_step s s' e fx es h = rw h (bind-behind fx (run s' es))

handle-data :
    (n len : ℕ) (consumed : ℤ) (closing : Bool) (bytes : Bytes) (written : ℤ)
    → length bytes < 2 ^ 31
    → WriteResult (length bytes) written
    → update_handler (receiving n len consumed closing) (part_data bytes written)
      ≡ ok (
        receiving n ((len + taken written) % 2 ^ 32) (pos (taken written)) closing,
        called (wrote (pos (suc n)) bytes) ∷ [],
      )
unfolding update_handler updater_active updater_status
handle-data n len consumed closing bytes written small w = rw (
    updater_write-taken (record { ipc = pos (suc n); len = len; status = status_ok }) bytes written
      small w)

pub run-data :
    (n len : ℕ) (consumed : ℤ) (closing : Bool) (ps : List Piece) (es : List Event)
    → len < 2 ^ 32
    → AreWrites ps
    → run (receiving n len consumed closing) (data_events ps ++ es)
      ≡ behind
          (writes n ps)
          (run (receiving n ((len + total ps) % 2 ^ 32) (last_taken consumed ps) closing) es)
run-data n len consumed closing [] es small w =
    let same : (len + 0) % 2 ^ 32 ≡ len = omega arith in
    rw same (sym (behind-none (run (receiving n len consumed closing) es)))
run-data n len consumed closing ((bytes, written) ∷ ps) es small w =
    let sum : ((len + taken written) % 2 ^ 32 + total ps) % 2 ^ 32
        ≡ (len + (taken written + total ps)) % 2 ^ 32 =
      omega arith in
    let later =
      run-data n ((len + taken written) % 2 ^ 32) (pos (taken written)) closing ps es (omega arith)
        w.2 in
    run_step _ _ (part_data bytes written) _ (data_events ps ++ es)
      (handle-data n len consumed closing bytes written w.0 w.1)
    ∙ ap (behind (called (wrote (pos (suc n)) bytes) ∷ [])) later
    ∙ behind-behind _ (writes n ps) _
    ∙ rw sum

-- What an upload is answered with.
abbrev pub answer : ℕ → Bytes → Effect
answer received name = responded (record {
  code = 200;
  body =
      codes "{\"error\":\"ok\",\"received\":"
      ++ (decimal_as_int received ++ (codes ",\"from\":\"" ++ (name ++ codes "\"}")));
})

-- A whole upload, from any state of the server, for which the daemon gives a positive handle, and
-- whose writes behave as POSIX says and have fewer than 2^31 bytes each: what was left open is
-- ended, the daemon is started with the file name, each piece is passed to the handle, in their
-- order, and the answer is 200 with "ok", the bytes that the writes took, modulo 2^32, and the
-- name. The handle is ended, the updater is as new, and the connection is marked to close.
pub run-upload :
    (s : Upload) (name : Bytes) (n : ℕ) (ps : List Piece)
    → AreWrites ps
    → run s (part_begin name (pos (suc n)) ∷ (data_events ps ++ part_end name ∷ []))
      ≡ ok (
        record {
          updater = zeroed;
          owned = false;
          num_data_consumed = last_taken s.num_data_consumed ps;
          send_and_close = true;
        },
        map called
              (end_ipc s.updater ++ started name (pos (suc n)) ∷ set_nonblocking (pos (suc n)) ∷ [])
            ++ (writes n ps
                ++ (answer (total ps % 2 ^ 32) name ∷ called (ended (pos (suc n))) ∷ [])),
      )
unfolding run update_handler updater_init updater_free updater_status http_error_message
    http_error_code
run-upload s name n ps w =
    let sum : (0 + total ps) % 2 ^ 32 ≡ total ps % 2 ^ 32 = omega arith in
    rw (
      run-data n 0 s.num_data_consumed s.send_and_close ps (part_end name ∷ []) (omega arith) w,
      sum,
    )
