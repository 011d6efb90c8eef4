-- ===== src/Env.antt =====
-- env_uboot.c: the bootloader environment behind libubootenv.
--
-- The library is a parameter: what its calls return, and the variables that its iterator yields. The
-- caller's buffer is its bytes; a write that does not fit in it is the fault `bad_write`.
pub mod Life
pub mod Fits
pub mod Writes
pub mod Overflow
use atx_sys.Common.{
  ℕ, ◌+◌, ◌-◌, ◌%◌, ◌^◌, Bool, true, false, Option, none, some, List, [], ◌∷◌, ◌++◌, map, length,
  take, drop, ltb, leb, ◌==◌, if◌then◌else◌, Bytes, codes, bytes_eq, ℤ, pos, negsuc, is_negative,
  Result, ok, fault, bad_write, ◌>>=◌,
}

-- env_s: the library's context, and whether the environment was loaded.
pub record Env : Type 0 where
  pub ctx : Option ℕ
  pub valid : Bool

abbrev pub zeroed : Env
zeroed = record { ctx = none; valid = false }

-- What the library answers: the context and the result of libuboot_initialize, and the results of
-- libuboot_read_config and libuboot_open for a context.
pub record Libuboot : Type 0 where
  pub initialize : Option ℕ × ℤ
  pub read_config : Option ℕ → Bytes → ℤ
  pub open_env : Option ℕ → ℤ

pub data Call : Type 0 where
  initialized : Call
  read_config : Option ℕ → Call
  opened : Option ℕ → Call
  closed : Option ℕ → Call
  exited : Option ℕ → Call

-- The state after a call, what it returned, and the library calls that it made, in order.
pub record Outcome : Type 0 where
  pub env : Env
  pub ret : ℤ
  pub calls : List Call

unfoldable pub env_init : Libuboot → Bytes → Outcome
env_init lib path =
    let (ctx, ret) = lib.initialize in
    let config = lib.read_config ctx path in
    let loaded = lib.open_env ctx in
    if is_negative ret
    then record { env = record zeroed { ctx = ctx }; ret = ret; calls = initialized ∷ [] }
    else if is_negative config
    then record {
      env = record zeroed { ctx = ctx };
      ret = config;
      calls = initialized ∷ read_config ctx ∷ exited ctx ∷ [];
    }
    else if is_negative loaded
    then record {
      env = record zeroed { ctx = ctx };
      ret = loaded;
      calls = initialized ∷ read_config ctx ∷ opened ctx ∷ exited ctx ∷ [];
    }
    else record {
      env = record { ctx = ctx; valid = true };
      ret = loaded;
      calls = initialized ∷ read_config ctx ∷ opened ctx ∷ [];
    }

unfoldable pub env_deinit : Env → Env × List Call
env_deinit env = (zeroed, if env.valid then closed env.ctx ∷ exited env.ctx ∷ [] else [])

abbrev pub u32 : ℕ
u32 = 2 ^ 32

-- A variable of the environment: its name and its value.
abbrev pub Var : Type 0
Var = Bytes × Bytes

-- *(buff + at) = text, byte by byte.
unfoldable pub write_at : ℕ → Bytes → Bytes → Result Bytes
write_at at text buff =
    if leb (at + length text) (length buff)
    then ok (take at buff ++ (text ++ drop (at + length text) buff))
    else fault bad_write

-- snprintf(&buff[at], size, "%s", text), which returns the length of the text.
unfoldable pub snprintf_at : ℕ → ℕ → Bytes → Bytes → Result Bytes
snprintf_at at size text buff =
    if size == 0 then ok buff else write_at at (take (size - 1) text ++ 0 ∷ []) buff

abbrev pub no_quote : ℕ → ℕ
no_quote c = if c == b'"' then b'\'' else c

-- The value as it is put into `temp`: cut to 127 bytes, its quotes replaced.
abbrev pub temp_of : Bytes → Bytes
temp_of value = map no_quote (take 127 value)

-- "\"%s\":\"%s\""
unfoldable pub entry : Var → Bytes
entry (name, value) = codes "\"" ++ (name ++ (codes "\":\"" ++ (temp_of value ++ codes "\"")))

-- buff[(*b)++] = c, if *b < len
unfoldable pub put_byte : ℕ → ℕ → Bytes × ℕ → Result (Bytes × ℕ)
put_byte len c (buff, b) =
    if ltb b len
    then (do buff' ← write_at b (c ∷ []) buff; ok (buff', (b + 1) % u32))
    else ok (buff, b)

-- The comma, when the iterator has another variable.
unfoldable pub comma : ℕ → List Var → Bytes × ℕ → Result (Bytes × ℕ)
comma len [] s = ok s
comma len (v ∷ vars) s = put_byte len b',' s

unfoldable pub env_loop : ℕ → List Var → Bytes × ℕ → Result (Bytes × ℕ)
env_loop len [] s = ok s
env_loop len (v ∷ vars) (buff, b) = do
  buff' ← snprintf_at b ((len + u32 - b) % u32) (entry v) buff
  s ← comma len vars (buff', (b + length (entry v)) % u32)
  env_loop len vars s

-- The final NUL does not count.
unfoldable pub put_nul : ℕ → Bytes × ℕ → Result (ℤ × Bytes × ℕ)
put_nul len (buff, b) =
    if ltb b len
    then (do buff' ← write_at b (0 ∷ []) buff; ok (pos 0, buff', b))
    else ok (negsuc 0, buff, b)

-- The result, the buffer, and the new *b. The length len is *b at the call.
unfoldable pub env_read : List Var → Bytes → ℕ → Result (ℤ × Bytes × ℕ)
env_read vars buff len = do
  start ← if len == 0 then ok buff else write_at 0 (b'{' ∷ []) buff
  s ← env_loop len vars (start, 1)
  s' ← put_byte len b'}' s
  put_nul len s'

unfoldable pub env_read_val : List Var → Bytes → Option Bytes
env_read_val [] key = none
env_read_val ((name, value) ∷ vars) key =
    if bytes_eq name key then some value else env_read_val vars key

unfoldable pub env_write : Env → ℤ
env_write env = negsuc 0
