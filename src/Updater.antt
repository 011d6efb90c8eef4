-- ===== src/Updater.antt =====
-- updater_swupdate.c and updater.h: the client of the swupdate daemon.
--
-- The daemon is a parameter: the handle that `ipc_inst_start_ext` returns, and what `write` returns,
-- are arguments. The calls on the daemon are listed in order.
pub mod Write
pub mod Progress
use atx_sys.Common.{
  length, ℕ, zero, suc, ◌+◌, ◌-◌, ◌%◌, ◌^◌, Bool, true, false, List, [], ◌∷◌, ◌++◌, ◌==◌,
  if◌then◌else◌, Bytes, ℤ, pos, negsuc, is_negative, Result, ok, fault, exited,
}

pub data UpdaterStatus : Type 0 where
  status_ok status_fail : UpdaterStatus

pub record Updater : Type 0 where
  pub ipc : ℤ
  pub len : ℕ
  pub status : UpdaterStatus

-- memset(updater, 0, sizeof(updater_s))
abbrev pub zeroed : Updater
zeroed = record { ipc = pos 0; len = 0; status = status_ok }

pub data Call : Type 0 where
  ended : ℤ → Call
  started : Bytes → ℤ → Call
  set_nonblocking : ℤ → Call
  wrote : ℤ → Bytes → Call

-- An int as a condition.
abbrev pub truthy : ℤ → Bool
truthy (pos zero) = false
truthy (pos (suc n)) = true
truthy (negsuc n) = true

-- An int converted to uint32_t.
abbrev pub to_u32 : ℤ → ℕ
to_u32 (pos n) = n % 2 ^ 32
to_u32 (negsuc n) = (2 ^ 32 - 1 - n) % 2 ^ 32

-- if (updater->ipc) ipc_end(updater->ipc);
abbrev pub end_ipc : Updater → List Call
end_ipc u = if truthy u.ipc then ended u.ipc ∷ [] else []

unfoldable pub updater_init : Updater → Bytes → ℤ → Result (Updater × List Call)
updater_init u name handle =
    if is_negative handle
    then fault exited
    else ok (
      record zeroed { ipc = handle },
      end_ipc u ++ started name handle ∷ set_nonblocking handle ∷ [],
    )

unfoldable pub updater_write : Updater → Bytes → ℤ → Updater × ℤ × List Call
updater_write u bytes written =
    let kept : ℤ =
      if to_u32 written == length bytes
      then written
      else if is_negative written
      then pos 0
      else written in
    (record u { len = (u.len + to_u32 kept) % 2 ^ 32 }, kept, wrote u.ipc bytes ∷ [])

unfoldable pub updater_free : Updater → Updater × List Call
updater_free u = (zeroed, end_ipc u)

unfoldable pub updater_active : Updater → Bool
updater_active u = truthy u.ipc

unfoldable pub updater_status : Updater → UpdaterStatus
updater_status u = u.status
