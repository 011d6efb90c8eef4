-- ===== src/Live/Harmless.antt =====
-- Requests and events that cannot fault.
use atx_sys.Common.{
  IsOk, print_at_most, codes, ◌<◌, Bool, true, false, List, [], ◌∷◌, ◌++◌, Option, none, some,
  if◌then◌else◌, length, Bytes, IsText, pos, negsuc, Bool-cases, inl, inr,
}
use atx_sys.Updater.{updater_init, updater_active, updater_status}
use atx_sys.Update.{
  Event, multipart_request, part_begin, part_data, part_end, multipart_request_end, other_event,
  Upload, update_handler, is_ok,
}
use atx_sys.Http.Routes.{lookup}
use atx_sys.Http.Server.{
  file_at, serve_root, serve_file, into_512, Handler, route_env, route_network, route_kill,
  route_about, route_or, without_route, process_file,
}
use atx_sys.Http.Server.Table.{table}
use atx_sys.RouteNetwork.{Disk}
use atx_sys.Api.{Message, Outside, call_handler, perform}
use atx_sys.Live.{Incoming, requested, uploaded, Turn}
use atx_sys.Live.Stops.{AreShort, AreShortTurns}

-- The routes that read neither the settings nor the environment.
abbrev pub IsFixed : Option Handler → Type 0
IsFixed none = Unit
IsFixed (some route_kill) = Unit
IsFixed (some route_about) = Unit
IsFixed (some route_env) = ⊥
IsFixed (some route_network) = ⊥

-- A request whose path the server can resolve, to none of those two routes, and an event of an upload
-- for which the daemon gives a handle.
abbrev pub IsHarmless : Incoming → Type 0
IsHarmless (requested disk m) =
    IsText m.request.uri × (length m.request.uri < 128) × IsFixed (lookup m.request.uri table)
IsHarmless (uploaded (part_begin name (negsuc n))) = ⊥
IsHarmless (uploaded (part_begin name (pos n))) = Unit
IsHarmless (uploaded multipart_request) = Unit
IsHarmless (uploaded (part_data l w)) = Unit
IsHarmless (uploaded (part_end name)) = Unit
IsHarmless (uploaded multipart_request_end) = Unit
IsHarmless (uploaded other_event) = Unit

abbrev pub AreHarmless : List Incoming → Type 0
AreHarmless [] = Unit
AreHarmless (i ∷ is) = IsHarmless i × AreHarmless is

abbrev pub AreHarmlessTurns : List Turn → Type 0
AreHarmlessTurns [] = Unit
AreHarmlessTurns (t ∷ ts) = AreHarmless t.incoming × AreHarmlessTurns ts

pub update_handler-IsOk :
    (s : Upload) (e : Event) → IsHarmless (uploaded e) → IsOk (update_handler s e)
unfolding update_handler updater_init
update_handler-IsOk s multipart_request h = tt
update_handler-IsOk s (part_begin name (pos n)) h = tt
update_handler-IsOk s (part_begin name (negsuc n)) h = h
update_handler-IsOk s (part_data l w) h = elim (Bool-cases (updater_active s.updater)) [
  | inl active ↦ elim (Bool-cases (is_ok (updater_status s.updater))) [
    | inl fine ↦ rw (active, fine) tt
    | inr bad ↦ rw (active, bad) tt
  ]
  | inr idle ↦ rw idle tt
]
update_handler-IsOk s (part_end name) h = tt
update_handler-IsOk s multipart_request_end h = tt
update_handler-IsOk s other_event h = tt

perform_file :
    (out : Outside) (disk : Disk) (m : Message) (root : Bytes) (settings : Option Bytes)
    (o : Option Bytes)
    → IsOk (perform out disk m (file_at out.files root o) settings)
perform_file out disk m root settings none = tt
perform_file out disk m root settings (some path) =
    go (out.files.exists (into_512 (root ++ print_at_most (length path) path)))
  where
    go :
        (b : Bool)
        → IsOk (
            perform out disk m
              (if b then serve_root root else serve_file (into_512 (root ++ codes "/index.html")))
              settings)
    go true = tt
    go false = tt

pub perform-IsOk :
    (out : Outside) (disk : Disk) (m : Message) (root : Option Bytes) (settings : Option Bytes)
    (o : Option Handler)
    → IsFixed o
    → IsOk (
        perform out disk m (route_or (without_route out.files root m.request) m.request o) settings)
unfolding call_handler process_file
perform-IsOk out disk m none settings none h = tt
perform-IsOk out disk m (some root) settings none h =
    perform_file out disk m root settings (out.files.parse_uri m.request.uri)
perform-IsOk out disk m root settings (some route_kill) h = tt
perform-IsOk out disk m root settings (some route_about) h = tt
perform-IsOk out disk m root settings (some route_env) h = absurd h
perform-IsOk out disk m root settings (some route_network) h = absurd h

AreHarmless-AreShort : (is : List Incoming) → AreHarmless is → AreShort is
AreHarmless-AreShort [] h = tt
AreHarmless-AreShort (requested disk m ∷ is) ((text, short, fixed), rest) =
    ((text, short), AreHarmless-AreShort is rest)
AreHarmless-AreShort (uploaded e ∷ is) (harmless, rest) = (tt, AreHarmless-AreShort is rest)

pub AreHarmlessTurns-AreShortTurns : (ts : List Turn) → AreHarmlessTurns ts → AreShortTurns ts
AreHarmlessTurns-AreShortTurns [] h = tt
AreHarmlessTurns-AreShortTurns (t ∷ ts) (harmless, rest) =
    (AreHarmless-AreShort t.incoming harmless, AreHarmlessTurns-AreShortTurns ts rest)
