-- ===== src/Update/Handles.antt =====
-- The daemon's handles, and the answers, over any stream of events.
use atx_sys.Common.{
  ◌≡◌, refl, ap, List, [], ◌∷◌, ◌++◌, map, append-nil, append_assoc, Bytes, ℤ, pos, negsuc, Result,
  ok, fault, ◌>>=◌, if◌then◌else◌, Bool-cases, inl, inr,
}
use atx_sys.Updater.{
  Updater, Call, ended, started, set_nonblocking, wrote, truthy, end_ipc, updater_init,
  updater_write, updater_free, updater_active, updater_status,
}
use atx_sys.Update.{
  Event, multipart_request, part_begin, part_data, part_end, multipart_request_end, other_event,
  Upload, Effect, called, responded, update_handler, run, is_ok,
}

-- The handle that an updater holds; 0 stands for none.
abbrev pub held : ℤ → List ℤ
held h = if truthy h then h ∷ [] else []

abbrev pub opened : List Effect → List ℤ
opened [] = []
opened (called (started name h) ∷ fx) = held h ++ opened fx
opened (called (ended h) ∷ fx) = opened fx
opened (called (set_nonblocking h) ∷ fx) = opened fx
opened (called (wrote h bytes) ∷ fx) = opened fx
opened (responded r ∷ fx) = opened fx

abbrev pub closed : List Effect → List ℤ
closed [] = []
closed (called (started name h) ∷ fx) = closed fx
closed (called (ended h) ∷ fx) = h ∷ closed fx
closed (called (set_nonblocking h) ∷ fx) = closed fx
closed (called (wrote h bytes) ∷ fx) = closed fx
closed (responded r ∷ fx) = closed fx

-- The books balance: held before and opened, in this order, is closed and held after.
abbrev pub Balances : Upload → Result (Upload × List Effect) → Type 0
Balances s (ok (s', fx)) = held s.updater.ipc ++ opened fx ≡ closed fx ++ held s'.updater.ipc
Balances s (fault e) = Unit {0}

opened-append : (xs ys : List Effect) → opened (xs ++ ys) ≡ opened xs ++ opened ys
opened-append [] ys = refl
opened-append (called (started name h) ∷ xs) ys = rw (opened-append xs ys, append_assoc)
opened-append (called (ended h) ∷ xs) ys = opened-append xs ys
opened-append (called (set_nonblocking h) ∷ xs) ys = opened-append xs ys
opened-append (called (wrote h bytes) ∷ xs) ys = opened-append xs ys
opened-append (responded r ∷ xs) ys = opened-append xs ys

pub closed-append : (xs ys : List Effect) → closed (xs ++ ys) ≡ closed xs ++ closed ys
closed-append [] ys = refl
closed-append (called (started name h) ∷ xs) ys = closed-append xs ys
closed-append (called (ended h) ∷ xs) ys = ap (◌∷◌ h) (closed-append xs ys)
closed-append (called (set_nonblocking h) ∷ xs) ys = closed-append xs ys
closed-append (called (wrote h bytes) ∷ xs) ys = closed-append xs ys
closed-append (responded r ∷ xs) ys = closed-append xs ys

pub closed-end_ipc :
    (u : Updater) (cs : List Call)
    → closed (map called (end_ipc u ++ cs)) ≡ held u.ipc ++ closed (map called cs)
closed-end_ipc u cs = elim (Bool-cases (truthy u.ipc)) [ inl e ↦ rw e | inr e ↦ rw e ]

opened-end_ipc :
    (u : Updater) (cs : List Call) → opened (map called (end_ipc u ++ cs)) ≡ opened (map called cs)
opened-end_ipc u cs = elim (Bool-cases (truthy u.ipc)) [ inl e ↦ rw e | inr e ↦ rw e ]

begin-Balances :
    (s : Upload) (name : Bytes) (h : ℤ) → Balances s (update_handler s (part_begin name h))
unfolding update_handler updater_init
begin-Balances s name (negsuc n) = tt
begin-Balances s name (pos n) =
    let calls = started name (pos n) ∷ set_nonblocking (pos n) ∷ [] in
    rw (opened-end_ipc s.updater calls, closed-end_ipc s.updater calls) (simp append-nil)

data-Balances :
    (s : Upload) (bytes : Bytes) (written : ℤ)
    → Balances s (update_handler s (part_data bytes written))
unfolding update_handler updater_write
data-Balances s bytes written = elim (Bool-cases (updater_active s.updater)) [
  | inl active ↦ elim (Bool-cases (is_ok (updater_status s.updater))) [
    | inl fine ↦ rw (active, fine) (append-nil _)
    | inr bad ↦ rw (active, bad) (append-nil _)
  ]
  | inr idle ↦ rw idle (append-nil _)
]

end-Balances : (s : Upload) (name : Bytes) → Balances s (update_handler s (part_end name))
unfolding update_handler updater_free
end-Balances s name =
    rw (← append-nil (end_ipc s.updater), opened-end_ipc s.updater [], closed-end_ipc s.updater [])
      (simp append-nil)

update_handler-Balances : (s : Upload) (e : Event) → Balances s (update_handler s e)
unfolding update_handler
update_handler-Balances s multipart_request = append-nil _
update_handler-Balances s (part_begin name h) = begin-Balances s name h
update_handler-Balances s (part_data bytes written) = data-Balances s bytes written
update_handler-Balances s (part_end name) = end-Balances s name
update_handler-Balances s multipart_request_end = append-nil _
update_handler-Balances s other_event = append-nil _

-- What a later part of the run adds keeps the books in balance.
then-Balances :
    (s : Upload) (r : Result (Upload × List Effect)) (k : Upload → Result (Upload × List Effect))
    → Balances s r
    → ((s' : Upload) → Balances s' (k s'))
    → Balances s (r >>= λ (s', fx). k s' >>= λ (s'', rest). ok (s'', fx ++ rest))
then-Balances s (fault e) k h next = tt
then-Balances s (ok (s', fx)) k h next = go (k s') (next s')
  where
    go :
        (r' : Result (Upload × List Effect))
        → Balances s' r'
        → Balances s (r' >>= λ (s'', rest). ok (s'', fx ++ rest))
    go (fault e) h' = tt
    go (ok (s'', rest)) h' =
        rw
          (
            opened-append fx rest,
            closed-append fx rest,
            append_assoc,
            ← h',
            ← append_assoc,
            ← append_assoc,
          )
          (ap (λ l. l ++ opened rest) h)

-- Over any stream of upload events that does not end the process, the daemon's handles that were
-- held before and opened on the way are, in this order, those that were ended and the one still
-- held. The handle 0 stands for none.
pub run-Balances : (s : Upload) (es : List Event) → Balances s (run s es)
unfolding run
run-Balances s [] = append-nil _
run-Balances s (e ∷ es) =
    then-Balances s (update_handler s e) (λ s'. run s' es) (update_handler-Balances s e)
      (λ s'. run-Balances s' es)
