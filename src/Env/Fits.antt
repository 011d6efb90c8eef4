-- ===== src/Env/Fits.antt =====
-- `env_read` into a buffer that is large enough.
use atx_sys.Common.{
  ℕ, suc, ◌+◌, ◌-◌, ◌%◌, ◌<◌, ◌≡◌, sym, ◌∙◌, List, [], ◌∷◌, ◌++◌, length, length-append, drop,
  append_assoc, Bytes, ◌==◌, Result, ok, ◌>>=◌, arith, ℤ, pos, false, lt→ltb, length-drop,
}
use atx_sys.Env.{Var, u32, entry, put_byte, put_nul, comma, env_loop, env_read}
use atx_sys.Env.Writes.{write_at-append, snprintf_at-append, put_byte-append, room}

-- The entries with commas between them.
abbrev pub joined : List Var → Bytes
joined [] = []
joined (v ∷ []) = entry v
joined (v ∷ w ∷ vars) = entry v ++ b',' ∷ joined (w ∷ vars)

-- The JSON object that the environment is shown as.
abbrev pub rendered : List Var → Bytes
rendered vars = b'{' ∷ (joined vars ++ b'}' ∷ [])

-- One variable, when another follows.
env_loop_more :
    (v w : Var) (vars : List Var) (before rest : Bytes) (len : ℕ)
    → len ≡ length before + length rest
    → len < u32
    → length (entry v) + 1 < length rest
    → env_loop len (v ∷ w ∷ vars) (before ++ rest, length before)
      ≡ env_loop len (w ∷ vars) (
        ((before ++ entry v) ++ b',' ∷ []) ++ drop (length (entry v) + 1) rest,
        length ((before ++ entry v) ++ b',' ∷ []),
      )
unfolding env_loop comma
env_loop_more v w vars before rest len e h fits =
    let text = entry v in
    let after = drop (length text + 1) rest in
    let at : (length before + length text) % u32 ≡ length (before ++ text) =
      omega (arith, length-append {0} before text) in
    let whole : before ++ (text ++ 0 ∷ after) ≡ (before ++ text) ++ 0 ∷ after =
      sym (append_assoc before text (0 ∷ after)) in
    let comma_at : (before ++ text) ++ b',' ∷ after ≡ ((before ++ text) ++ b',' ∷ []) ++ after =
      sym (append_assoc (before ++ text) (b',' ∷ []) after) in
    let end : length (before ++ text) + 1 ≡ length ((before ++ text) ++ b',' ∷ []) =
      omega (arith, length-append {0} (before ++ text) (b',' ∷ [])) in
    rw (
      room len (length before) (length rest) e h,
      snprintf_at-append before text rest (omega arith),
      at,
      whole,
      put_byte-append len b',' 0 (before ++ text) after
          (omega (arith, length-append {0} before text, length-drop {0} (length text + 1) rest)) h,
      comma_at,
      end,
    )

env_loop-joined :
    (vars : List Var) (before rest : Bytes) (len : ℕ)
    → len ≡ length before + length rest
    → len < u32
    → length (joined vars) < length rest
    → (after : Bytes) × (length after + length (joined vars) ≡ length rest)
      × (env_loop len vars (before ++ rest, length before)
          ≡ ok (before ++ (joined vars ++ after), length before + length (joined vars)))
env_loop-joined [] before rest len e h fits =
    let none_added : length before + 0 ≡ length before = omega arith in
    (rest, omega arith, unfold env_loop in rw none_added)
env_loop-joined (v ∷ []) before rest len e h fits =
    let at : (length before + length (entry v)) % u32 ≡ length before + length (entry v) =
      omega arith in
    (
      0 ∷ drop (length (entry v) + 1) rest,
      omega (arith, length-drop {0} (length (entry v) + 1) rest),
      unfold env_loop comma in
          rw (
            room len (length before) (length rest) e h,
            snprintf_at-append before (entry v) rest fits,
            at,
          ),
    )
env_loop-joined (v ∷ w ∷ vars) before rest len e h fits =
    let rest' = drop (length (entry v) + 1) rest in
    let before' = (before ++ entry v) ++ b',' ∷ [] in
    let later = joined (w ∷ vars) in
    let whole : length (joined (v ∷ w ∷ vars)) ≡ length (entry v) + suc (length later) =
      length-append (entry v) (b',' ∷ later) in
    let start : length before' ≡ length before + length (entry v) + 1 = omega (
      arith,
      length-append {0} (before ++ entry v) (b',' ∷ []),
      length-append {0} before (entry v),
    ) in
    let left : length rest' ≡ length rest - (length (entry v) + 1) =
      length-drop (length (entry v) + 1) rest in
    let (after, sized, looped) =
      env_loop-joined (w ∷ vars) before' rest' len (omega arith) h (omega arith) in
    let sum : length before' + length later ≡ length before + length (joined (v ∷ w ∷ vars)) =
      omega arith in
    (
      after,
      omega arith,
      env_loop_more v w vars before rest len e h (omega arith)
          ∙ looped
          ∙ rw sum (simp append_assoc),
    )

-- The closing brace and the NUL.
close :
    (len : ℕ) (before after : Bytes)
    → len ≡ length before + length after
    → len < u32
    → 1 < length after
    → (put_byte len b'}' (before ++ after, length before) >>= put_nul len)
      ≡ ok (pos 0, before ++ b'}' ∷ 0 ∷ drop 2 after, length before + 1)
unfolding put_nul
close len before [] e h two = absurd (omega arith)
close len before (x ∷ []) e h two = absurd (omega arith)
close len before (x ∷ y ∷ tail) e h two =
    let whole : before ++ b'}' ∷ y ∷ tail ≡ (before ++ b'}' ∷ []) ++ y ∷ tail =
      sym (append_assoc before (b'}' ∷ []) (y ∷ tail)) in
    let at : length before + 1 ≡ length (before ++ b'}' ∷ []) =
      omega (arith, length-append {0} before (b'}' ∷ [])) in
    rw
      (
        put_byte-append len b'}' x before (y ∷ tail) e h,
        at,
        whole,
        lt→ltb (length (before ++ b'}' ∷ [])) len (omega arith),
        write_at-append (before ++ b'}' ∷ []) (0 ∷ []) (y ∷ tail) (omega arith),
      )
      (rw append_assoc)

-- The object, its NUL and what the buffer held behind them.
pub record Shows (vars : List Var) (buff : Bytes) (r : Result (ℤ × Bytes × ℕ)) : Type 0 where
  pub behind : Bytes
  pub sized : length (rendered vars) + suc (length behind) ≡ length buff
  pub result : r ≡ ok (pos 0, rendered vars ++ 0 ∷ behind, length (rendered vars))

env_read_result :
    (vars : List Var) (d : ℕ) (rest after : Bytes)
    → length (rendered vars) ≡ length (joined vars) + 2
    → length after + length (joined vars) ≡ length rest
    → length (rendered vars) < suc (length rest)
    → suc (length rest) < u32
    → env_loop (suc (length rest)) vars (b'{' ∷ rest, 1)
      ≡ ok (b'{' ∷ (joined vars ++ after), 1 + length (joined vars))
    → env_read vars (d ∷ rest) (suc (length rest))
      ≡ ok (pos 0, rendered vars ++ 0 ∷ drop 2 after, length (rendered vars))
unfolding env_read
env_read_result vars d rest after sizes sized fits h looped =
    let more : (suc (length rest) == 0) ≡ false = ground arith in
    let at : 1 + length (joined vars) ≡ length (b'{' ∷ joined vars) = omega arith in
    let end : length (b'{' ∷ joined vars) + 1 ≡ length (rendered vars) = omega arith in
    rw (
      more,
      write_at-append [] (b'{' ∷ []) (d ∷ rest) (omega arith),
      looped,
      at,
      close (suc (length rest)) (b'{' ∷ joined vars) after (omega arith) h (omega arith),
      end,
      append_assoc,
    )

-- When the object of all variables with its NUL fits in the buffer, of fewer than 2^32 bytes,
-- env_read returns 0, the buffer begins with the object and its NUL, and *b is the object's length.
pub env_read-rendered :
    (vars : List Var) (buff : Bytes)
    → length (rendered vars) < length buff
    → length buff < u32
    → Shows vars buff (env_read vars buff (length buff))
env_read-rendered vars [] fits h = absurd (omega arith)
env_read-rendered vars (d ∷ rest) fits h =
    let sizes : length (rendered vars) ≡ length (joined vars) + 2 =
      omega (arith, length-append {0} (joined vars) (b'}' ∷ [])) in
    let (after, sized, looped) =
      env_loop-joined vars (b'{' ∷ []) rest (suc (length rest)) (omega arith) h (omega arith) in
    record {
      behind = drop 2 after;
      sized = omega (arith, length-drop {0} 2 after);
      result = env_read_result vars d rest after sizes sized fits h looped;
    }
