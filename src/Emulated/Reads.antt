-- ===== src/Emulated/Reads.antt =====
-- What the stand-ins do.
use atx_sys.Common.{
  ℕ, ◌+◌, ◌%◌, ◌^◌, ◌-◌, ◌<◌, ◌≡◌, ◌∙◌, ap, true, false, List, [], ◌∷◌, ◌++◌, Bytes, length, take,
  drop, take-all, length-append, ltb, le→ltb, leb, ◌==◌, pos, negsuc, ok, arith, append_assoc,
}
use atx_sys.Env.{snprintf_at, write_at}
use atx_sys.Updater.{Updater}
use atx_sys.Emulated.{emu_env, env_read, updater_write}

-- In a buffer with room for the text and its NUL the emulated env_read writes both, sets *b to the
-- length of the text, and returns -1.
pub env_read_inverted :
    (room : Bytes)
    → length emu_env < length room
    → env_read room (length room)
      ≡ ok (negsuc 0, emu_env ++ 0 ∷ drop (length emu_env + 1) room, length emu_env)
unfolding env_read snprintf_at write_at
env_read_inverted room fits =
    let some_room : (length room == 0) ≡ false = ground arith in
    let whole : take (length room - 1) emu_env ≡ emu_env = take-all _ emu_env (omega arith) in
    let size : length (emu_env ++ 0 ∷ []) ≡ length emu_env + 1 = length-append emu_env (0 ∷ []) in
    let inside : leb (length emu_env + 1) (length room) ≡ true = ground arith in
    let enough : ltb (length room) (length emu_env) ≡ false = le→ltb _ _ (omega arith) in
    rw (some_room, whole, size, inside, enough)
      (ap (λ t. ok (negsuc 0, t, length emu_env)) (append_assoc emu_env (0 ∷ []) _))

abbrev pub total : List ℕ → ℕ
total [] = 0
total (n ∷ ns) = n + total ns

abbrev pub writes : Updater → List ℕ → Updater
writes u [] = u
writes u (n ∷ ns) = writes (updater_write u n).0 ns

-- After any writes the emulated updater's counter, of 32 bits, has grown by their sum modulo 2^32,
-- and a write of fewer than 2^31 bytes then returns all of them.
pub updater_write-writes :
    (u : Updater) (ns : List ℕ) (n : ℕ)
    → u.len < 2 ^ 32
    → n < 2 ^ 31
    → ((writes u ns).len ≡ (u.len + total ns) % 2 ^ 32)
      × ((updater_write (writes u ns) n).1 ≡ pos n)
unfolding updater_write
updater_write-writes u [] n small short = (omega arith, ground arith)
updater_write-writes u (k ∷ ks) n small short =
    let (sum, back) = updater_write-writes (updater_write u k).0 ks n (omega arith) short in
    let carry : ((u.len + k) % 2 ^ 32 + total ks) % 2 ^ 32 ≡ (u.len + (k + total ks)) % 2 ^ 32 =
      omega arith in
    (sum ∙ carry, back)
