-- ===== src/Env/Life.antt =====
-- The life of the library's context: every path releases what it acquired.
use atx_sys.Common.{
  ℕ, ◌+◌, ◌≡◌, ◌↔◌, true, false, List, [], ◌∷◌, ◌++◌, if◌then◌else◌, Bytes, is_negative, arith,
}
use atx_sys.Env.{
  Libuboot, Call, initialized, read_config, opened, closed, exited, env_init, env_deinit,
}

-- All three calls succeeded.
abbrev pub Loads : Libuboot → Bytes → Type 0
Loads lib path =
    (is_negative lib.initialize.1 ≡ false)
    × (is_negative (lib.read_config lib.initialize.0 path) ≡ false)
    × (is_negative (lib.open_env lib.initialize.0) ≡ false)

-- After env_init the environment is marked valid exactly when all three calls of the library
-- succeed, which is also when the result is not negative.
pub env_init-valid :
    (lib : Libuboot) (path : Bytes)
    → (((env_init lib path).env.valid ≡ true) ↔ Loads lib path)
      × ((is_negative (env_init lib path).ret ≡ false) ↔ Loads lib path)
unfolding env_init
env_init-valid lib path = ground arith

-- How often a context is released.
abbrev pub exits : List Call → ℕ
exits [] = 0
exits (exited c ∷ cs) = exits cs + 1
exits (initialized ∷ cs) = exits cs
exits (read_config c ∷ cs) = exits cs
exits (opened c ∷ cs) = exits cs
exits (closed c ∷ cs) = exits cs

-- No call uses a context after its release.
abbrev pub NoUseAfterExit : List Call → Type 0
NoUseAfterExit [] = Unit {0}
NoUseAfterExit (exited c ∷ cs) = cs ≡ []
NoUseAfterExit (initialized ∷ cs) = NoUseAfterExit cs
NoUseAfterExit (read_config c ∷ cs) = NoUseAfterExit cs
NoUseAfterExit (opened c ∷ cs) = NoUseAfterExit cs
NoUseAfterExit (closed c ∷ cs) = NoUseAfterExit cs

abbrev pub life : Libuboot → Bytes → List Call
life lib path = (env_init lib path).calls ++ (env_deinit (env_init lib path).env).1

-- From env_init to env_deinit the library's context is released exactly once if the result of
-- libuboot_initialize is not negative, and never otherwise, whatever the later calls return, and no
-- call follows the release.
pub life-exits :
    (lib : Libuboot) (path : Bytes)
    → (exits (life lib path) ≡ (if is_negative lib.initialize.1 then 0 else 1))
      × NoUseAfterExit (life lib path)
unfolding env_init env_deinit
life-exits lib path = ground arith
