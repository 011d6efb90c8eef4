-- ===== src/Examples/Env.antt =====
-- A bootloader environment of two variables.
use atx_sys.Common.{
  arith, ◌≡◌, refl, [], ◌∷◌, ◌++◌, Bytes, codes, ok, fault, bad_write, pos, replicate,
}
use atx_sys.Env.{Var, Libuboot, env_init, env_read}
use atx_sys.Env.Fits.{Shows, env_read-rendered}
use atx_sys.Env.Overflow.{env_read_overflow}

abbrev active : Var
active = (codes "active", codes "a")

abbrev quoted : Var
quoted = (codes "foo", codes "\"x\"")

abbrev buffer : Bytes
buffer = replicate 40 0

env_read_runs :
    env_read (active ∷ quoted ∷ []) buffer 40
    ≡ ok (pos 0, codes "{\"active\":\"a\",\"foo\":\"'x'\"}" ++ replicate 14 0, 26)
unfolding env_read atx_sys.Env.write_at atx_sys.Env.env_loop atx_sys.Env.snprintf_at
    atx_sys.Env.entry atx_sys.Env.comma atx_sys.Env.put_byte atx_sys.Env.put_nul
env_read_runs = refl

env_read-rendered_example :
    Shows (active ∷ quoted ∷ []) buffer (env_read (active ∷ quoted ∷ []) buffer 40)
unfolding atx_sys.Env.entry
env_read-rendered_example =
    env_read-rendered (active ∷ quoted ∷ []) buffer (omega arith) (omega arith)

-- Ten bytes hold no entry of twelve.
env_read_overflow_example :
    env_read (active ∷ ([] ++ quoted ∷ [])) (replicate 10 0) 10 ≡ fault bad_write
unfolding atx_sys.Env.entry
env_read_overflow_example =
    env_read_overflow active [] quoted [] (replicate 10 0) (omega arith) (omega arith)
