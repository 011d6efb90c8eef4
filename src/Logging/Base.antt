-- ===== src/Logging/Base.antt =====
-- The name of the file in a line of the log.
use atx_sys.Common.{
  ℕ, zero, suc, ◌+◌, ◌-◌, ◌<◌, ◌≡◌, refl, ap, ◌∙◌, true, false, [], ◌∷◌, ◌++◌, ltb, if◌then◌else◌,
  length, length-append, drop, Bytes, ok, arith,
}
use atx_sys.Logging.{base_name, last_separator, byte_at, is_separator}

-- No slash and no backslash.
abbrev pub IsName : Bytes → Type 0
IsName [] = Unit
IsName (c ∷ s) = (is_separator c ≡ false) × IsName s

byte_at-append : (s t : Bytes) (n : ℕ) → byte_at (s ++ t) (length s + n) ≡ byte_at t n
byte_at-append [] t n = ap (byte_at t) (omega arith)
byte_at-append (c ∷ s) t n =
    let next : suc (length s) + n ≡ suc (length s + n) = omega arith in
    ap (byte_at (c ∷ (s ++ t))) next ∙ byte_at-append s t n

byte_at-IsName : (s : Bytes) (n : ℕ) → IsName s → is_separator (byte_at s n) ≡ false
byte_at-IsName [] n h = ground arith
byte_at-IsName (c ∷ s) zero h = h.0
byte_at-IsName (c ∷ s) (suc n) h = byte_at-IsName s n h.1

last_separator_at :
    (file : Bytes) (n : ℕ) → is_separator (byte_at file n) ≡ true → last_separator file n ≡ n
unfolding last_separator
last_separator_at file zero h = refl
last_separator_at file (suc n) h = rw h

last_separator_past :
    (file : Bytes) (n : ℕ)
    → is_separator (byte_at file (suc n)) ≡ false
    → last_separator file (suc n) ≡ last_separator file n
unfolding last_separator
last_separator_past file n h = rw h

-- From the end of a name to the separator before it.
last_separator-name :
    (dir : Bytes) (c : ℕ) (name : Bytes) (n : ℕ)
    → is_separator c ≡ true
    → IsName name
    → last_separator (dir ++ c ∷ name) (length dir + n) ≡ length dir
last_separator-name dir c name zero h k =
    let there : is_separator (byte_at (dir ++ c ∷ name) (length dir + 0)) ≡ true =
      rw (byte_at-append dir (c ∷ name) 0) h in
    last_separator_at (dir ++ c ∷ name) (length dir + 0) there ∙ omega arith
last_separator-name dir c name (suc n) h k =
    let next : length dir + suc n ≡ suc (length dir + n) = omega arith in
    let there : is_separator (byte_at (dir ++ c ∷ name) (length dir + suc n)) ≡ false =
      rw (byte_at-append dir (c ∷ name) (suc n)) (byte_at-IsName name n k) in
    ap (last_separator (dir ++ c ∷ name)) next
    ∙ last_separator_past (dir ++ c ∷ name) (length dir + n) (rw (← next) there)
    ∙ last_separator-name dir c name n h k

drop-past : (dir : Bytes) (c : ℕ) (name : Bytes) → drop (length dir + 1) (dir ++ c ∷ name) ≡ name
drop-past [] c name = refl
drop-past (d ∷ dir) c name =
    let next : suc (length dir) + 1 ≡ suc (length dir + 1) = omega arith in
    ap (λ n. drop n (d ∷ (dir ++ c ∷ name))) next ∙ drop-past dir c name

base_name-from :
    (file : Bytes) (n : ℕ)
    → 0 < length file
    → last_separator file (length file - 1) ≡ n
    → base_name file ≡ ok (if ltb 1 n then drop (n + 1) file else file)
unfolding base_name
base_name-from [] n h e = ground arith
base_name-from (c ∷ s) n h e =
    let same : last_separator (c ∷ s) (length s) ≡ n =
      ap (last_separator (c ∷ s)) (omega arith) ∙ e in
    ap (λ m. ok (if ltb 1 m then drop (m + 1) (c ∷ s) else c ∷ s)) same

-- For a path whose last separator stands before a name, log_log shows the name when the directory
-- before the separator has two bytes or more, and else the whole path.
pub base_name-separator :
    (dir : Bytes) (c : ℕ) (name : Bytes)
    → is_separator c ≡ true
    → IsName name
    → base_name (dir ++ c ∷ name) ≡ ok (if ltb 1 (length dir) then name else dir ++ c ∷ name)
base_name-separator dir c name h k =
    let size : length (dir ++ c ∷ name) - 1 ≡ length dir + length name =
      omega (arith, length-append dir (c ∷ name)) in
    let long : 0 < length (dir ++ c ∷ name) = omega (arith, length-append dir (c ∷ name)) in
    let found : last_separator (dir ++ c ∷ name) (length (dir ++ c ∷ name) - 1) ≡ length dir =
      ap (last_separator (dir ++ c ∷ name)) size
      ∙ last_separator-name dir c name (length name) h k in
    base_name-from (dir ++ c ∷ name) (length dir) long found
    ∙ ap (λ s. ok (if ltb 1 (length dir) then s else dir ++ c ∷ name)) (drop-past dir c name)

last_separator-none : (file : Bytes) (n : ℕ) → IsName file → last_separator file n ≡ 0
unfolding last_separator
last_separator-none file zero h = refl
last_separator-none file (suc n) h =
    last_separator_past file n (byte_at-IsName file (suc n) h) ∙ last_separator-none file n h

pub base_name-IsName : (file : Bytes) → 0 < length file → IsName file → base_name file ≡ ok file
base_name-IsName file h k = base_name-from file 0 h (last_separator-none file (length file - 1) k)
