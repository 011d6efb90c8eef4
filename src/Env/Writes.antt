-- ===== src/Env/Writes.antt =====
-- What one write of `env_read` leaves of a buffer with room for it.
use atx_sys.Common.{
  ℕ, suc, ◌+◌, ◌-◌, ◌%◌, ◌≤◌, ◌<◌, ◌≡◌, [], ◌∷◌, ◌++◌, length, length-append, drop,
  take-append_self, drop-append_self, drop-add, take-all, append_assoc, Bytes, leb, ◌==◌, ok, arith,
  true, false, lt→ltb,
}
use atx_sys.Env.{u32, write_at, snprintf_at, put_byte}

le→leb : (a b : ℕ) → a ≤ b → leb a b ≡ true
le→leb a b h = ground arith

pub write_at-append :
    (before text rest : Bytes)
    → length text ≤ length rest
    → write_at (length before) text (before ++ rest)
      ≡ ok (before ++ (text ++ drop (length text) rest))
unfolding write_at
write_at-append before text rest h =
    let fits : length before + length text ≤ length (before ++ rest) =
      omega (arith, length-append {0} before rest) in
    rw (
      le→leb _ _ fits,
      take-append_self before rest,
      drop-add (length before) (length text) (before ++ rest),
      drop-append_self before rest,
    )

pub snprintf_at-append :
    (before text rest : Bytes)
    → length text < length rest
    → snprintf_at (length before) (length rest) text (before ++ rest)
      ≡ ok (before ++ (text ++ 0 ∷ drop (length text + 1) rest))
unfolding snprintf_at
snprintf_at-append before text [] h = absurd (omega arith)
snprintf_at-append before text (d ∷ r) h =
    let size : suc (length r) - 1 ≡ length r = omega arith in
    let more : (suc (length r) == 0) ≡ false = ground arith in
    let len : length (text ++ 0 ∷ []) ≡ length text + 1 =
      omega (arith, length-append {0} text (0 ∷ [])) in
    rw (
      more,
      size,
      take-all (length r) text (omega arith),
      write_at-append before (text ++ 0 ∷ []) (d ∷ r) (omega arith),
      len,
      append_assoc,
    )

-- One byte written over the first of the rest.
pub put_byte-append :
    (len c d : ℕ) (before rest : Bytes)
    → len ≡ length before + suc (length rest)
    → len < u32
    → put_byte len c (before ++ d ∷ rest, length before)
      ≡ ok (before ++ c ∷ rest, length before + 1)
unfolding put_byte
put_byte-append len c d before rest e h =
    let small : (length before + 1) % u32 ≡ length before + 1 = omega arith in
    rw (
      lt→ltb (length before) len (omega arith),
      small,
      write_at-append before (c ∷ []) (d ∷ rest) (omega arith),
    )

-- The size that the loop passes is the room that is left.
pub room : (len b r : ℕ) → len ≡ b + r → len < u32 → (len + u32 - b) % u32 ≡ r
room len b r e h = omega arith
