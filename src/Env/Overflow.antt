-- ===== src/Env/Overflow.antt =====
-- `env_read` into a buffer that is too small.
use atx_sys.Common.{
  ℕ, suc, ◌+◌, ◌-◌, ◌%◌, ◌≤◌, ◌<◌, ◌≡◌, refl, List, [], ◌∷◌, ◌++◌, length, length-append, Bytes,
  ltb, leb, ◌==◌, if◌then◌else◌, Result, ok, fault, bad_write, ◌>>=◌, arith, false, le→ltb, lt→ltb,
  inl, inr, ◌⊎◌, Bool-cases, take, length-drop, length-take_le, leb→le, ltb→lt, ltb→le, drop,
}
use atx_sys.Env.{Var, u32, write_at, snprintf_at, entry, put_byte, comma, env_loop, env_read}
use atx_sys.Env.Fits.{joined}

lt→leb : (a b : ℕ) → b < a → leb a b ≡ false
lt→leb a b h = ground arith

-- A print that starts behind the buffer, with the size that wraps around, writes out of bounds.
snprintf_at_behind :
    (b len : ℕ) (text buff : Bytes)
    → length buff ≡ len
    → len < b
    → b < u32
    → snprintf_at b ((len + u32 - b) % u32) text buff ≡ fault bad_write
unfolding snprintf_at write_at
snprintf_at_behind b len text buff e lt h =
    let size = (len + u32 - b) % u32 in
    let some_room : (size == 0) ≡ false = ground arith in
    rw (some_room, lt→leb (b + length (take (size - 1) text ++ 0 ∷ [])) (length buff) (omega arith))

-- A write went out of bounds, or left a buffer of the same size.
abbrev Keeps : ℕ → Result Bytes → Type 0
Keeps len r = (r ≡ fault bad_write) ⊎ ((buff : Bytes) × (r ≡ ok buff) × (length buff ≡ len))

write_at-Keeps : (at : ℕ) (text buff : Bytes) → Keeps (length buff) (write_at at text buff)
unfolding write_at
write_at-Keeps at text buff = elim (Bool-cases (leb (at + length text) (length buff))) [
  | inl fits ↦ rw fits (
      inr (
        _,
        refl,
        omega (
          arith,
          leb→le _ _ fits,
          length-append {0} (take at buff) (text ++ drop (at + length text) buff),
          length-append {0} text (drop (at + length text) buff),
          length-take_le {0} at buff (omega (arith, leb→le _ _ fits)),
          length-drop {0} (at + length text) buff,
        ),
      ))
  | inr over ↦ rw over (inl refl)
]

snprintf_at-Keeps :
    (at size : ℕ) (text buff : Bytes) → Keeps (length buff) (snprintf_at at size text buff)
unfolding snprintf_at
snprintf_at-Keeps at size text buff = elim (Bool-cases (size == 0)) [
  | inl nothing ↦ rw nothing (inr (buff, refl, refl))
  | inr some ↦ rw some (write_at-Keeps at (take (size - 1) text ++ 0 ∷ []) buff)
]

-- What follows a write faults if it faults on every buffer of the same size.
bind-Keeps :
    {A : Type 0} (len : ℕ) (r : Result Bytes) (k : Bytes → Result A)
    → Keeps len r
    → ((buff : Bytes) → length buff ≡ len → k buff ≡ fault bad_write)
    → (r >>= k) ≡ fault bad_write
bind-Keeps len r k (inl bad) h = rw bad
bind-Keeps len r k (inr (buff, good, size)) h = rw good (h buff size)

env_loop_behind :
    (len b : ℕ) (v : Var) (vars : List Var) (buff : Bytes)
    → length buff ≡ len
    → len < b
    → b < u32
    → env_loop len (v ∷ vars) (buff, b) ≡ fault bad_write
unfolding env_loop
env_loop_behind len b v vars buff e lt h = rw (snprintf_at_behind b len (entry v) buff e lt h)

entry_pos : (v : Var) → 0 < length (entry v)
unfolding entry
entry_pos v = omega arith

joined_pos : (v : Var) (vars : List Var) → 0 < length (joined (v ∷ vars))
joined_pos v [] = entry_pos v
joined_pos v (w ∷ vars) =
    omega (arith, entry_pos v, length-append {0} (entry v) (b',' ∷ joined (w ∷ vars)))

comma_behind :
    (len b : ℕ) (w : Var) (vars : List Var) (buff : Bytes)
    → len ≤ b
    → comma len (w ∷ vars) (buff, b) ≡ ok (buff, b)
unfolding comma put_byte
comma_behind len b w vars buff h = rw (le→ltb b len h)

comma_before :
    {A : Type 0} (len b : ℕ) (w : Var) (vars : List Var) (buff : Bytes) (k : Bytes × ℕ → Result A)
    → b < len
    → length buff ≡ len
    → ((buff' : Bytes) → length buff' ≡ len → k (buff', (b + 1) % u32) ≡ fault bad_write)
    → (comma len (w ∷ vars) (buff, b) >>= k) ≡ fault bad_write
unfolding comma put_byte
comma_before len b w vars buff k lt e h =
    rw (lt→ltb b len lt)
      (go (write_at b (b',' ∷ []) buff) (rw (← e) (write_at-Keeps b (b',' ∷ []) buff)))
  where
    go :
        (r : Result Bytes)
        → Keeps len r
        → ((r >>= λ buff'. ok (buff', (b + 1) % u32)) >>= k) ≡ fault bad_write
    go r (inl bad) = rw bad
    go r (inr (buff', good, size)) = rw good (h buff' size)

snprintf_at-Keeps_sized :
    (len at size : ℕ) (text buff : Bytes)
    → length buff ≡ len
    → Keeps len (snprintf_at at size text buff)
snprintf_at-Keeps_sized len at size text buff e = rw (← e) (snprintf_at-Keeps at size text buff)

-- The commas and entries up to the last of the list run past the buffer, and one more follows.
env_loop_overflow :
    (len b : ℕ) (v : Var) (vs : List Var) (w : Var) (ws : List Var) (buff : Bytes)
    → length buff ≡ len
    → len < b + length (joined (v ∷ vs))
    → b + length (joined (v ∷ vs)) < u32
    → env_loop len (v ∷ (vs ++ w ∷ ws)) (buff, b) ≡ fault bad_write
unfolding env_loop
env_loop_overflow len b v [] w ws buff e lt h =
    let at : (b + length (entry v)) % u32 ≡ b + length (entry v) = omega arith in
    bind-Keeps len (snprintf_at b ((len + u32 - b) % u32) (entry v) buff) _
      (snprintf_at-Keeps_sized len b ((len + u32 - b) % u32) (entry v) buff e)
      λ buff' e'.
        rw (at, comma_behind len (b + length (entry v)) w ws buff' (omega arith))
          (env_loop_behind len (b + length (entry v)) w ws buff' e' lt h)
env_loop_overflow len b v (y ∷ vs) w ws buff e lt h =
    let text = entry v in
    let later = joined (y ∷ vs) in
    let whole : length (joined (v ∷ y ∷ vs)) ≡ length text + suc (length later) =
      length-append text (b',' ∷ later) in
    let at : (b + length text) % u32 ≡ b + length text = omega arith in
    let next : (b + length text + 1) % u32 ≡ b + length text + 1 = omega arith in
    bind-Keeps len (snprintf_at b ((len + u32 - b) % u32) text buff) _
      (snprintf_at-Keeps_sized len b ((len + u32 - b) % u32) text buff e)
      λ buff' e'. elim (Bool-cases (ltb (b + length text) len)) [
        | inl before ↦ rw at (
            comma_before len (b + length text) y (vs ++ w ∷ ws) buff' _ (ltb→lt _ _ before) e'
              λ buff'' e''. rw next (
                env_loop_overflow len (b + length text + 1) y vs w ws buff'' e'' (omega arith)
                  (omega arith)))
        | inr behind ↦
            rw (at, comma_behind len (b + length text) y (vs ++ w ∷ ws) buff' (ltb→le _ _ behind))
              (env_loop_overflow len (b + length text) y vs w ws buff' e'
                (omega (arith, ltb→le _ _ behind, joined_pos y vs)) (omega arith))
      ]

-- When the opening brace and the entries of some of the variables are longer than the buffer, by a
-- length below 2^32, and another variable follows, env_read writes outside of the buffer.
pub env_read_overflow :
    (v : Var) (vs : List Var) (w : Var) (ws : List Var) (buff : Bytes)
    → length buff < 1 + length (joined (v ∷ vs))
    → 1 + length (joined (v ∷ vs)) < u32
    → env_read (v ∷ (vs ++ w ∷ ws)) buff (length buff) ≡ fault bad_write
unfolding env_read
env_read_overflow v vs w ws buff lt h =
    bind-Keeps (length buff) (if length buff == 0 then ok buff else write_at 0 (b'{' ∷ []) buff) _
      start λ buff' e'. rw (env_loop_overflow (length buff) 1 v vs w ws buff' e' lt h)
  where
    start : Keeps (length buff) (if length buff == 0 then ok buff else write_at 0 (b'{' ∷ []) buff)
    start = elim (Bool-cases (length buff == 0)) [
      | inl empty ↦ rw empty (inr (buff, refl, refl))
      | inr some ↦ rw some (write_at-Keeps 0 (b'{' ∷ []) buff)
    ]
