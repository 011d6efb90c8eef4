-- ===== src/Logging/Clock.antt =====
-- sys.c: the clock's milliseconds since its first reading, as an int32_t.
--
-- A reading is the seconds and the nanoseconds of clock_gettime, which does not go back.
use atx_sys.Common.{
  ℕ, ◌+◌, ◌-◌, ◌*◌, ◌/◌, ◌%◌, ◌^◌, ◌≤◌, ◌<◌, ◌≡◌, refl, ap, ◌∙◌, false, lt→ltb, List, [], ◌∷◌, map,
  ltb, ◌==◌, if◌then◌else◌, ℤ, pos, negsuc, arith,
}

pub record Timespec : Type 0 where
  pub tv_sec : ℕ
  pub tv_nsec : ℕ

abbrev pub milliseconds : Timespec → ℕ
milliseconds ts = ts.tv_sec * 1000 + ts.tv_nsec / 1000000

-- The int32_t of the same 32 bits.
abbrev pub int32_of : ℕ → ℤ
int32_of n =
    let low : ℕ = n % 2 ^ 32 in if ltb low (2 ^ 31) then pos low else negsuc (2 ^ 32 - 1 - low)

-- The static variable, which is set on the first call, and the result.
unfoldable pub tick : ℕ → Timespec → ℕ × ℤ
tick start ts =
    let now : ℕ = milliseconds ts in
    let start' : ℕ = if start == 0 then now else start in (start', int32_of (now - start'))

-- The results of calls, one after the other.
unfoldable pub ticks : ℕ → List Timespec → List ℤ
unfolding tick
ticks start [] = []
ticks start (ts ∷ later) = let (start', t) = tick start ts in t ∷ ticks start' later

-- Readings from a first one on, for less than 2^31 milliseconds.
abbrev pub IsWithin : ℕ → List Timespec → Type 0
IsWithin first [] = Unit
IsWithin first (ts ∷ later) =
    (first ≤ milliseconds ts) × (milliseconds ts - first < 2 ^ 31) × IsWithin first later

int32_of-small : (n : ℕ) → n < 2 ^ 31 → int32_of n ≡ pos n
int32_of-small n h =
    let low : n % 2 ^ 32 ≡ n = omega arith in
    ap (λ k. if ltb k (2 ^ 31) then pos k else negsuc (2 ^ 32 - 1 - k)) low
    ∙ ap (λ b. if b then pos n else negsuc (2 ^ 32 - 1 - n)) (lt→ltb n (2 ^ 31) h)

tick-started :
    (start : ℕ) (ts : Timespec)
    → 0 < start
    → tick start ts ≡ (start, int32_of (milliseconds ts - start))
unfolding tick
tick-started start ts h =
    let set : (start == 0) ≡ false = ground arith in
    ap
      (λ b. (
        if b then milliseconds ts else start,
        int32_of (milliseconds ts - (if b then milliseconds ts else start)),
      ))
      set

ticks-elapsed_from :
    (start : ℕ) (later : List Timespec)
    → 0 < start
    → IsWithin start later
    → ticks start later ≡ map (λ ts. pos (milliseconds ts - start)) later
unfolding ticks
ticks-elapsed_from start [] p h = refl
ticks-elapsed_from start (ts ∷ later) p (after, near, rest) =
    ap (λ r. r.1 ∷ ticks r.0 later) (tick-started start ts p)
    ∙ ap (◌∷ ticks start later) (int32_of-small (milliseconds ts - start) near)
    ∙ ap (pos (milliseconds ts - start) ∷◌) (ticks-elapsed_from start later p rest)

-- For a clock that is not at 0, the first call of tick returns 0 and the later ones the
-- milliseconds since the first, when these are fewer than 2^31 and the clock does not go back.
pub ticks-elapsed :
    (ts : Timespec) (later : List Timespec)
    → 0 < milliseconds ts
    → IsWithin (milliseconds ts) later
    → ticks 0 (ts ∷ later) ≡ pos 0 ∷ map (λ t. pos (milliseconds t - milliseconds ts)) later
unfolding ticks
ticks-elapsed ts later p h =
    let none_yet : milliseconds ts - milliseconds ts ≡ 0 = omega arith in
    ap (λ n. int32_of n ∷ ticks (milliseconds ts) later) none_yet
    ∙ ap (pos 0 ∷◌) (ticks-elapsed_from (milliseconds ts) later p h)
