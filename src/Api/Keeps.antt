-- ===== src/Api/Keeps.antt =====
-- What a request leaves as it is, whatever its callback does.
use atx_sys.Common.{
  codes, ◌≡◌, refl, Bool, true, false, ◌++◌, Option, none, some, Bytes, length, print_at_most,
  Result, ok, fault, if◌then◌else◌, ◌>>=◌,
}
use atx_sys.Http.{Response}
use atx_sys.Http.Codes.{Method, get_method}
use atx_sys.Http.Server.{
  Request, Files, Action, call_route, serve_file, serve_root, reply, nothing, into_512, file_at,
  process_file, route_or, without_route, Handler, route_env, route_network, route_kill, route_about,
}
use atx_sys.Http.Server.Life.{Http, after_action}
use atx_sys.RouteNetwork.{Disk}
use atx_sys.Api.{Message, Outside, call_handler, perform, sent_any}

-- A PUT or a POST.
abbrev pub writes : Method → Bool
writes Method.get = false
writes Method.delete = false
writes Method.put = true
writes Method.post = true

-- A GET or a DELETE.
abbrev pub Reads : Method → Type 0
Reads Method.get = Unit
Reads Method.delete = Unit
Reads Method.put = ⊥
Reads Method.post = ⊥

-- The settings' file after it is the one from before.
abbrev pub Keeps : Option Bytes → Result (Option Bytes × Bytes) → Type 0
Keeps settings (ok (after, bytes)) = after ≡ settings
Keeps settings (fault e) = Unit

Keeps-bind :
    {A : Type 0} (settings : Option Bytes) (r : Result A) (f : A → Bytes)
    → Keeps settings (r >>= λ a. ok (settings, f a))
Keeps-bind settings (ok a) f = refl
Keeps-bind settings (fault e) f = tt

Keeps-behind :
    (settings : Option Bytes) (r : Result (Unit {0})) (k : Result (Option Bytes × Bytes))
    → Keeps settings k
    → Keeps settings (r >>= λ u. k)
Keeps-behind settings (ok u) k h = h
Keeps-behind settings (fault e) k h = tt

-- A callback's answer, which is then sent.
Keeps-answer :
    {A : Type 0} (settings : Option Bytes) (r : Result A) (f : A → Option Response)
    → Keeps settings (
        ◌>>=◌ {A = Option Bytes × Option Response}
          (r >>= λ a. ok (settings, f a))
          λ x. ok (x.0, sent_any x.1))
Keeps-answer settings (ok a) f = refl
Keeps-answer settings (fault e) f = tt

network-Keeps :
    (out : Outside) (disk : Disk) (method : Method) (body : Bytes) (settings : Option Bytes)
    → Reads method
    → Keeps settings (
        atx_sys.RouteNetwork.route_network out.jsmn disk settings method (length body) body >>= λ x.
        ok (x.0, sent_any x.1))
unfolding atx_sys.RouteNetwork.route_network
network-Keeps out disk Method.get body settings k =
    Keeps-answer settings (atx_sys.RouteNetwork.get disk settings) some
network-Keeps out disk Method.delete body settings k = refl
network-Keeps out disk Method.put body settings k = absurd k
network-Keeps out disk Method.post body settings k = absurd k

call_handler-Keeps :
    (out : Outside) (disk : Disk) (m : Message) (h : Handler) (method : Method) (body : Bytes)
    (settings : Option Bytes)
    → Reads method
    → Keeps settings (call_handler out disk m h method body settings)
unfolding call_handler
call_handler-Keeps out disk m route_env method body settings k =
    Keeps-behind settings (atx_sys.Api.context_of out.valid method) _ (
      Keeps-bind settings
        (atx_sys.RouteEnv.route_env out.pointer out.strstr m.query m.behind out.vars out.buffer
          method)
        sent_any)
call_handler-Keeps out disk m route_network method body settings k =
    network-Keeps out disk method body settings k
call_handler-Keeps out disk m route_kill method body settings k = refl
call_handler-Keeps out disk m route_about method body settings k = refl

-- A route that is called, if one is, is called with a reading method.
abbrev pub AreReads : Action Handler → Type 0
AreReads (call_route h method body) = Reads method
AreReads a = Unit

pub perform-Keeps :
    (out : Outside) (disk : Disk) (m : Message) (a : Action Handler) (settings : Option Bytes)
    → AreReads a
    → Keeps settings (perform out disk m a settings)
perform-Keeps out disk m (call_route h method body) settings k =
    call_handler-Keeps out disk m h method body settings k
perform-Keeps out disk m (serve_file path) settings k = refl
perform-Keeps out disk m (serve_root path) settings k = refl
perform-Keeps out disk m (reply r) settings k = refl
perform-Keeps out disk m nothing settings k = refl

file_or-AreReads :
    (root fallback : Bytes) (b : Bool)
    → AreReads (if b then serve_root root else serve_file fallback)
file_or-AreReads root fallback true = tt
file_or-AreReads root fallback false = tt

file_at-AreReads :
    (files : Files) (root : Bytes) (o : Option Bytes) → AreReads (file_at files root o)
file_at-AreReads files root none = tt
file_at-AreReads files root (some path) =
    file_or-AreReads root (into_512 (root ++ codes "/index.html"))
      (files.exists (into_512 (root ++ print_at_most (length path) path)))

pub route_or-AreReads :
    (files : Files) (root : Option Bytes) (m : Request) (o : Option Handler)
    → Reads (get_method m.method)
    → AreReads (route_or (without_route files root m) m o)
unfolding process_file
route_or-AreReads files root m (some h) k = k
route_or-AreReads files none m none k = tt
route_or-AreReads files (some root) m none k = file_at-AreReads files root (files.parse_uri m.uri)

-- What of the server no request changes.
abbrev pub SameServer : {M : Type 0} → Http M → Http M → Type 0
SameServer s t =
    (t.routes ≡ s.routes)
    × (t.document_root ≡ s.document_root)
    × (t.network_config ≡ s.network_config)

pub after_action-SameServer :
    {M : Type 0} (a : Action Handler) (s : Http M) → SameServer s (after_action a s)
after_action-SameServer (call_route route_env method body) s = (refl, refl, refl)
after_action-SameServer (call_route route_network method body) s = (refl, refl, refl)
after_action-SameServer (call_route route_kill method body) s = (refl, refl, refl)
after_action-SameServer (call_route route_about method body) s = (refl, refl, refl)
after_action-SameServer (serve_file path) s = (refl, refl, refl)
after_action-SameServer (serve_root path) s = (refl, refl, refl)
after_action-SameServer (reply r) s = (refl, refl, refl)
after_action-SameServer nothing s = (refl, refl, refl)
