-- ===== src/Update/Answers.antt =====
-- Which answers an upload can get.
use atx_sys.Common.{
  ◌≡◌, refl, List, [], ◌∷◌, ◌++◌, map, pos, negsuc, Result, ok, fault, ◌>>=◌, inl, inr, Bool-cases,
}
use atx_sys.Updater.{
  status_ok, Call, end_ipc, started, set_nonblocking, updater_init, updater_write, updater_free,
  updater_active, updater_status,
}
use atx_sys.Update.{
  Event, multipart_request, part_begin, part_data, part_end, multipart_request_end, other_event,
  Upload, Effect, called, responded, update_handler, run,
}

-- Every answer on the way has code 200, and so has whatever the next events answer.
abbrev pub AnswersOk : List Effect → Type 0
AnswersOk [] = Unit {0}
AnswersOk (called c ∷ fx) = AnswersOk fx
AnswersOk (responded r ∷ fx) = (r.code ≡ 200) × AnswersOk fx

abbrev pub StaysOk : Result (Upload × List Effect) → Type 0
StaysOk (ok (s, fx)) = (s.updater.status ≡ status_ok) × AnswersOk fx
StaysOk (fault e) = Unit {0}

AnswersOk-append : (xs ys : List Effect) → AnswersOk xs → AnswersOk ys → AnswersOk (xs ++ ys)
AnswersOk-append [] ys h k = k
AnswersOk-append (called c ∷ xs) ys h k = AnswersOk-append xs ys h k
AnswersOk-append (responded r ∷ xs) ys h k = (h.0, AnswersOk-append xs ys h.1 k)

AnswersOk-calls : (cs : List Call) → AnswersOk (map called cs)
AnswersOk-calls [] = tt
AnswersOk-calls (c ∷ cs) = AnswersOk-calls cs

update_handler-StaysOk :
    (s : Upload) (e : Event) → s.updater.status ≡ status_ok → StaysOk (update_handler s e)
unfolding update_handler updater_init updater_write updater_free updater_status
update_handler-StaysOk s multipart_request h = (h, tt)
update_handler-StaysOk s (part_begin name (pos n)) h = (
  refl,
  AnswersOk-calls (end_ipc s.updater ++ started name (pos n) ∷ set_nonblocking (pos n) ∷ []),
)
update_handler-StaysOk s (part_begin name (negsuc n)) h = tt
update_handler-StaysOk s (part_data bytes written) h =
    elim (Bool-cases (updater_active s.updater)) [
      | inl active ↦ rw (active, h) (refl, tt)
      | inr idle ↦ rw idle (h, tt)
    ]
update_handler-StaysOk s (part_end name) h =
    rw h (refl, (refl, AnswersOk-calls (updater_free s.updater).1))
update_handler-StaysOk s multipart_request_end h = (h, tt)
update_handler-StaysOk s other_event h = (h, tt)

then-StaysOk :
    (r : Result (Upload × List Effect)) (k : Upload → Result (Upload × List Effect))
    → StaysOk r
    → ((s : Upload) → s.updater.status ≡ status_ok → StaysOk (k s))
    → StaysOk (r >>= λ (s', fx). k s' >>= λ (s'', rest). ok (s'', fx ++ rest))
then-StaysOk (fault e) k h next = tt
then-StaysOk (ok (s, fx)) k h next = go (k s) (next s h.0)
  where
    go :
        (r : Result (Upload × List Effect))
        → StaysOk r
        → StaysOk (r >>= λ (s'', rest). ok (s'', fx ++ rest))
    go (fault e) h' = tt
    go (ok (s'', rest)) h' = (h'.0, AnswersOk-append fx rest h.1 h'.1)

-- From a server whose status is OK every answer over any stream of upload events that does not end
-- the process has code 200, whatever the writes to the daemon return, and the status is OK at the
-- end.
pub run-StaysOk : (s : Upload) (es : List Event) → s.updater.status ≡ status_ok → StaysOk (run s es)
unfolding run
run-StaysOk s [] h = (h, tt)
run-StaysOk s (e ∷ es) h =
    then-StaysOk (update_handler s e) (λ s'. run s' es) (update_handler-StaysOk s e h)
      λ s' h'. run-StaysOk s' es h'
