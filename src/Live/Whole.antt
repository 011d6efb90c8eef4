-- ===== src/Live/Whole.antt =====
-- The program from its start to its end, with everything that goes on in its loop (app/main.c,
-- atxsys.c).
use mathlib.Core.Path.{subst}
use atx_sys.Common.{
  Bool-cases, inl, inr, bad_read, ℕ, true, false, ◌≡◌, refl, sym, ap, ◌∙◌, List, [], ◌++◌, map,
  Option, none, some, if◌then◌else◌, Bytes, pos, is_negative, Result, ok, fault, ◌>>=◌, bind-ok,
  ok-injective,
}
use atx_sys.Env.Life.{exits, NoUseAfterExit}
use atx_sys.Updater.{truthy}
use atx_sys.Update.{called}
use atx_sys.Update.Handles.{opened, closed}
use atx_sys.Http.Routes.{RouteMap}
use atx_sys.Http.Server.{Handler}
use atx_sys.Http.Server.Life.{http_init, http_serve, listen}
use atx_sys.System.{read_user_config, Config, log_path, env_of, port_of}
use atx_sys.System.Create.{
  detached, detached, Machine, Atxsys, Started, Released, new_atxsys, atxsys_create, atxsys_destroy,
  served, object, bind,
}
use atx_sys.System.Create.Life.{env_calls, atxsys_destroy-new}
use atx_sys.Live.{Output, Host, Device, Turn, live_loop}
use atx_sys.Live.Uploads.{effects, live_loop-handles}

-- What a start wrote, the rounds of the loop and what went out, the settings' file at the end, and
-- what was released.
pub record Life (M : Type 0) : Type 0 where
  pub started : Started M
  pub rounds : ℕ
  pub outputs : List Output
  pub settings : Option Bytes
  pub released : Released

-- The settings' file behind the start.
abbrev pub file_after : Option Bytes → Option Bytes → Option Bytes
file_after (some created) content = some created
file_after none content = content

module _ (ops : RouteMap Handler) where
  open ops use {Map}

  -- No connection is open and no upload was begun.
  abbrev pub first_device : Atxsys Map → Option Bytes → Device Map
  first_device u settings = record {
    http = u.http;
    settings = settings;
    owned = false;
    num_data_consumed = pos 0;
    send_and_close = false;
    browsers = [];
  }

  -- The environment is the one that the start has opened.
  unfoldable pub live_run : Machine → Host → List Turn → Config → Result (Life Map)
  live_run mach h ts c = do
    started ← atxsys_create ops h.outside.jsmn mach c
    u ← object ops started.atxsys
    (n, end, outs) ←
        live_loop ops (record h { outside = record h.outside { valid = u.env.valid } }) ts true
          (first_device u (file_after started.created mach.user_file.content))
    let life : Life Map = record {
      started = started;
      rounds = n;
      outputs = outs;
      settings = end.settings;
      released = atxsys_destroy ops (record u { http = end.http });
    }
    ok life

  served-idle :
      (nconfig www : Option Bytes)
      → truthy (listen ops (served ops www (http_init ops nconfig))).updater.ipc ≡ false
  unfolding listen http_init http_serve
  served-idle nconfig none = refl
  served-idle nconfig (some www) = refl

  new_atxsys-idle :
      (mach : Machine) (c : Config) (path : Bytes)
      → truthy (new_atxsys ops mach c path).http.updater.ipc ≡ false
  unfolding new_atxsys
  new_atxsys-idle mach c path = served-idle c.usr c.www

  abbrev made : Machine → Config → Atxsys Map
  made mach c = new_atxsys ops mach c (log_path mach.cwd c.log)

  -- The object of a start that was made, with the calls of libubootenv up to there.
  abbrev Made : Machine → Config → Started Map → Type 0
  Made mach c started =
      (u : Atxsys Map)
      → started.atxsys ≡ some u
      → (made mach c ≡ u) × (started.calls ≡ (atx_sys.Env.env_init mach.uboot (env_of c)).calls)

  no_object : {A : Type 0} (u : Atxsys Map) → ◌≡◌ {A = Option (Atxsys Map)} none (some u) → A
  no_object u e = absurd (clash e)
    where
      clash : ◌≡◌ {A = Option (Atxsys Map)} none (some u) → ⊥
      clash e = cc

  same_object : (u v : Atxsys Map) → ◌≡◌ {A = Option (Atxsys Map)} (some u) (some v) → u ≡ v
  same_object u v e = cc

  atxsys_create-Made :
      (h : Host) (mach : Machine) (c : Config) (started : Started Map)
      → atxsys_create ops h.outside.jsmn mach c ≡ ok started
      → Made mach c started
  unfolding atxsys_create
  atxsys_create-Made h mach c started e =
      let (read, got, e2) =
        bind-ok (read_user_config h.outside.jsmn c.usr mach.user_file mach.unset) _ started e in
      let (unit, child, e3) = bind-ok (detached mach c) _ started e2 in
      elim (Bool-cases mach.allocates) [
        | inl there ↦
            let (unit', bound, e4) =
              bind-ok (bind (mach.bound (port_of c))) _ started (rw there at e3) in
            subst (Made mach c) (ok-injective e4)
              (λ u same. (same_object (made mach c) u same, refl))
        | inr not_there ↦
            subst (Made mach c) (ok-injective (rw not_there at e3)) (λ u same. no_object u same)
      ]

  object-some : (o : Option (Atxsys Map)) (u : Atxsys Map) → object ops o ≡ ok u → o ≡ some u
  object-some none u e = absurd (clash e)
    where
      clash : ◌≡◌ {A = Result (Atxsys Map)} (fault bad_read) (ok u) → ⊥
      clash e = cc
  object-some (some v) u e = ap some (ok-injective e)

  -- What a life has opened and what it has released.
  abbrev pub ReleasesAll : Machine → Config → Life Map → Type 0
  ReleasesAll mach c life =
      (opened (effects life.outputs)
        ≡ closed (effects life.outputs ++ map called life.released.http.0))
      × (exits (life.started.calls ++ life.released.env)
          ≡ (if is_negative mach.uboot.initialize.1 then 0 else 1))
      × NoUseAfterExit (life.started.calls ++ life.released.env)
      × (life.released.log ≡ (made mach c).log)

  ending-ReleasesAll :
      (mach : Machine) (h : Host) (ts : List Turn) (c : Config) (started : Started Map)
      (u : Atxsys Map) (first end : Device Map) (n : ℕ) (outs : List Output)
      → made mach c ≡ u
      → started.calls ≡ (atx_sys.Env.env_init mach.uboot (env_of c)).calls
      → first.http ≡ u.http
      → live_loop ops h ts true first ≡ ok (n, end, outs)
      → ReleasesAll mach c (record {
        started = started;
        rounds = n;
        outputs = outs;
        settings = end.settings;
        released = atxsys_destroy ops (record u { http = end.http });
      })
  unfolding atxsys_destroy
  ending-ReleasesAll mach h ts c started u first end n outs same calls begun looped =
      let path : Bytes = log_path mach.cwd c.log in
      let idle : truthy first.http.updater.ipc ≡ false =
        ap (λ s. truthy s.updater.ipc) (begun ∙ sym (ap (λ v. v.http) same))
        ∙ new_atxsys-idle mach c path in
      let (once, clean, log) = atxsys_destroy-new ops mach c path in
      let all : env_calls ops mach c path
          ≡ started.calls ++ (atxsys_destroy ops (record u { http = end.http })).env =
        ap
          (λ v.
            (atx_sys.Env.env_init mach.uboot (env_of c)).calls ++ (atx_sys.Env.env_deinit v.env).1)
          same
        ∙ ap (λ l. l ++ (atx_sys.Env.env_deinit u.env).1) (sym calls) in
      (
        live_loop-handles ops h ts true first end n outs idle looped,
        ap exits (sym all) ∙ once,
        subst NoUseAfterExit all clean,
        ap (λ v. v.log) (sym same),
      )

  -- A run of the program from its start to its end that does not fault, whatever requests, uploads,
  -- polls and signals come in it, ends each handle that it opened for an upload once and in the
  -- order of their opening, releases the context of libubootenv exactly once if the result of
  -- libuboot_initialize is not negative and never otherwise, makes no other of the calls of its
  -- start and its end behind that, and closes the log exactly if it was opened. The handle 0 stands
  -- for none.
  pub live_run-ReleasesAll :
      (mach : Machine) (h : Host) (ts : List Turn) (c : Config) (life : Life Map)
      → live_run mach h ts c ≡ ok life
      → ReleasesAll mach c life
  unfolding live_run atxsys_destroy
  live_run-ReleasesAll mach h ts c life e =
      let (started, begun, e2) = bind-ok (atxsys_create ops h.outside.jsmn mach c) _ life e in
      let (u, there, e3) = bind-ok (object ops started.atxsys) _ life e2 in
      let host : Host = record h { outside = record h.outside { valid = u.env.valid } } in
      let first : Device Map = first_device u (file_after started.created mach.user_file.content) in
      let (x, looped, e5) = bind-ok (live_loop ops host ts true first) _ life e3 in
      let (same, calls) =
        atxsys_create-Made h mach c started begun u (object-some started.atxsys u there) in
      subst (ReleasesAll mach c) (ok-injective e5)
        (ending-ReleasesAll mach host ts c started u first x.1 x.0 x.2 same calls refl looped)
