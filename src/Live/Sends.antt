-- ===== src/Live/Sends.antt =====
-- What goes out of a running server.
use mathlib.Core.Path.{subst}
use atx_sys.Common.{
  Holds, ℕ, Bool, ◌≡◌, refl, inl, inr, List, [], ◌∷◌, ◌++◌, map, ok, pos, negsuc, Bool-cases,
}
use atx_sys.Updater.{Call, updater_init, updater_active, updater_status}
use atx_sys.Update.{
  Event, multipart_request, part_begin, part_data, part_end, multipart_request_end, other_event,
  Upload, Effect, called, responded, update_handler, is_ok,
}
use atx_sys.Http.Routes.{RouteMap}
use atx_sys.Http.Server.{Handler}
use atx_sys.Api.{Outside}
use atx_sys.Api.Statuses.{IsStatus}
use atx_sys.Api.Sends.{IsAnswer, respond-IsAnswer}
use atx_sys.Live.{
  Incoming, requested, uploaded, Output, answered, uploading, Host, Device, Turn, after_signals,
  take_incoming, live_loop, world_of, upload_of,
}
use atx_sys.Live.Runs.{Handed, none_left, handed, Ran, over, stopped, turned, live_loop-Ran}
use atx_sys.Live.Parts.{requested_parts, uploaded_parts}

-- An answer of an upload has one of the codes too; a call of the daemon is no answer.
abbrev pub Sends : Outside → Output → Type 0
Sends out (answered bytes) = IsAnswer out bytes
Sends out (uploading (responded r)) = IsStatus r.code
Sends out (uploading (called c)) = Unit

abbrev pub AllSend : Outside → List Output → Type 0
AllSend out [] = Unit
AllSend out (o ∷ os) = Sends out o × AllSend out os

AllSend-append :
    (out : Outside) (xs ys : List Output) → AllSend out xs → AllSend out ys → AllSend out (xs ++ ys)
AllSend-append out [] ys h k = k
AllSend-append out (x ∷ xs) ys (first, h) k = (first, AllSend-append out xs ys h k)

AllSend-calls : (out : Outside) (cs : List Call) → AllSend out (map uploading (map called cs))
AllSend-calls out [] = tt
AllSend-calls out (c ∷ cs) = (tt, AllSend-calls out cs)

-- What the handler of the uploads did.
abbrev Sent : Outside → Upload × List Effect → Type 0
Sent out x = AllSend out (map uploading x.1)

update_handler-Sent :
    (out : Outside) (s : Upload) (e : Event) → Holds (Sent out) (update_handler s e)
unfolding update_handler updater_init
update_handler-Sent out s multipart_request = tt
update_handler-Sent out s (part_begin name (pos n)) = AllSend-calls out _
update_handler-Sent out s (part_begin name (negsuc n)) = tt
update_handler-Sent out s (part_data l w) = elim (Bool-cases (updater_active s.updater)) [
  | inl active ↦ elim (Bool-cases (is_ok (updater_status s.updater))) [
    | inl fine ↦ rw (active, fine) (AllSend-calls out _)
    | inr bad ↦ rw (active, bad) tt
  ]
  | inr idle ↦ rw idle tt
]
update_handler-Sent out s (part_end name) = elim (Bool-cases (is_ok (updater_status s.updater))) [
  | inl fine ↦ rw fine (inl refl, AllSend-calls out _)
  | inr bad ↦ rw bad (inr (inr refl), AllSend-calls out _)
]
update_handler-Sent out s multipart_request_end = tt
update_handler-Sent out s other_event = tt

module _ (ops : RouteMap Handler) (h : Host) where
  open ops use {Map}

  take_incoming-AllSend :
      (i : Incoming) (d d' : Device Map) (o : List Output)
      → take_incoming ops h i d ≡ ok (d', o)
      → AllSend h.outside o
  take_incoming-AllSend (requested disk m) d d' o e =
      let (w, bytes, done, same, sent) = requested_parts ops h disk m d d' o e in
      subst (AllSend h.outside) sent
        (respond-IsAnswer ops h.outside disk m (world_of d) w bytes done, tt)
  take_incoming-AllSend (uploaded v) d d' o e =
      let (s, fx, done, same, did) = uploaded_parts ops h v d d' o e in
      let sends : AllSend h.outside (map uploading fx) =
        subst (Holds (Sent h.outside)) done (update_handler-Sent h.outside (upload_of d) v) in
      subst (AllSend h.outside) did sends

  Handed-AllSend :
      (is : List Incoming) (d d' : Device Map) (o : List Output)
      → Handed ops h is d d' o
      → AllSend h.outside o
  Handed-AllSend [] d d' o none_left = tt
  Handed-AllSend (i ∷ is) d d' o (handed {d' = mid} {o = first} {rest} e later) =
      AllSend-append h.outside first rest (take_incoming-AllSend i d mid first e)
        (Handed-AllSend is mid d' rest later)

  Ran-AllSend :
      (ts : List Turn) (running : Bool) (d end : Device Map) (n : ℕ) (outs : List Output)
      → Ran ops h ts running d n end outs
      → AllSend h.outside outs
  Ran-AllSend [] running d end n outs over = tt
  Ran-AllSend (t ∷ ts) running d end n outs (stopped off) = tt
  Ran-AllSend (t ∷ ts) running d end n outs
        (turned {n = m} {d' = mid} {d'' = seen} {o} {rest} on taken watched later) =
      AllSend-append h.outside o rest (Handed-AllSend t.incoming d mid o taken)
        (Ran-AllSend ts (after_signals t.signals running) seen end m rest later)

  -- In a run of the program's loop that does not fault, what goes out for a request is nothing,
  -- what mongoose sends of a file, or a response with the code 200, 404 or 500, and each answer to
  -- an upload has one of these codes.
  pub live_loop-AllSend :
      (ts : List Turn) (running : Bool) (d end : Device Map) (n : ℕ) (outs : List Output)
      → live_loop ops h ts running d ≡ ok (n, end, outs)
      → AllSend h.outside outs
  live_loop-AllSend ts running d end n outs e =
      Ran-AllSend ts running d end n outs (live_loop-Ran ops h ts running d end n outs e)
