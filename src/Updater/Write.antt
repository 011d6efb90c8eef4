-- ===== src/Updater/Write.antt =====
-- What a write to the daemon counts.
use atx_sys.Common.{Bytes, length, [], ◌∷◌, ℕ, ◌+◌, ◌%◌, ◌^◌, ◌≤◌, ◌<◌, ◌≡◌, ℤ, pos, negsuc, arith}
use atx_sys.Updater.{Updater, wrote, updater_write}

-- What POSIX says of write: an error, or a count of bytes not above the one asked for.
abbrev pub WriteResult : ℕ → ℤ → Type 0
WriteResult len (pos n) = n ≤ len
WriteResult len (negsuc n) = n ≡ 0

-- The bytes that a write took.
abbrev pub taken : ℤ → ℕ
taken (pos n) = n
taken (negsuc n) = 0

-- For a write that behaves as POSIX says, of fewer than 2^31 bytes, the result and the counter both
-- hold the bytes that were taken: none after an error; the handle and the status stay, and the bytes were passed to
-- that handle.
pub updater_write-taken :
    (u : Updater) (bytes : Bytes) (written : ℤ)
    → length bytes < 2 ^ 31
    → WriteResult (length bytes) written
    → updater_write u bytes written ≡ (
      record u { len = (u.len + taken written) % 2 ^ 32 },
      pos (taken written),
      wrote u.ipc bytes ∷ [],
    )
unfolding updater_write
updater_write-taken u bytes (pos n) small w = ground arith
updater_write-taken u bytes (negsuc n) small w = ground arith
