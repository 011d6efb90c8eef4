-- ===== src/System/Log.antt =====
-- The path of the log file.
use atx_sys.Common.{
  ◌+◌, ◌-◌, ◌<◌, ◌≡◌, true, [], ◌∷◌, ◌++◌, some, none, Option, Bytes, length, length-append,
  length-take_at_most, take, take-all, arith, lt→ltb, ltb, append_assoc, if◌then◌else◌, Bool-cases,
  inl, inr, ltb→lt,
}
use atx_sys.System.{log_path, is_absolute, from_directory}

-- From a working directory of fewer than 2048 bytes the path of the log with its NUL fits in the
-- buffer of 2048, whatever the log's name is.
pub log_path_fits :
    (cwd : Bytes) (log : Option Bytes) → length cwd < 2048 → length (log_path cwd log) < 2048
unfolding log_path
log_path_fits cwd none h = omega arith
log_path_fits cwd (some log) h = elim (Bool-cases (is_absolute log)) [
  | inl root ↦ rw root (omega (arith, length-take_at_most {0} 2047 log))
  | inr rel ↦ rw rel (go (from_directory cwd) (shorter cwd h))
]
  where
    shorter : (cwd : Bytes) → length cwd < 2048 → length (from_directory cwd) < 2048
    shorter cwd h = elim (Bool-cases (ltb (length cwd) (2048 - length cwd))) [
      | inl room ↦ rw room (omega (arith, length-append {0} cwd (b'/' ∷ []), ltb→lt _ _ room))
      | inr full ↦ rw full (omega (arith, length-append {0} cwd []))
    ]

    go : (s : Bytes) → length s < 2048 → length (s ++ take (2048 - length s - 1) log) < 2048
    go s h = omega (
      arith,
      length-append {0} s (take (2048 - length s - 1) log),
      length-take_at_most {0} (2048 - length s - 1) log,
    )

-- A log path that is not absolute is taken from the working directory, whose name has fewer than
-- 1024 bytes, and an absolute one is taken as it is, when the directory, a slash and the log path
-- have fewer than 2048 bytes.
pub log_path_joined :
    (cwd log : Bytes)
    → length cwd < 1024
    → length cwd + 1 + length log < 2048
    → log_path cwd (some log) ≡ (if is_absolute log then log else cwd ++ b'/' ∷ log)
unfolding log_path
log_path_joined cwd log short fits = elim (Bool-cases (is_absolute log)) [
  | inl root ↦ rw root (take-all 2047 log (omega arith))
  | inr rel ↦
      let room : ltb (length cwd) (2048 - length cwd) ≡ true = lt→ltb _ _ (omega arith) in
      let rest : take (2048 - length (cwd ++ b'/' ∷ []) - 1) log ≡ log =
        take-all _ log (omega (arith, length-append {0} cwd (b'/' ∷ []))) in
      rw (rel, room, rest) (append_assoc cwd (b'/' ∷ []) log)
]
