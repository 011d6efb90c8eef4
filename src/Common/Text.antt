-- ===== src/Common/Text.antt =====
-- Bytes of C strings, and what the program uses of the C string functions.
use Prim.Native.Nat.{ℕ, zero, suc, ◌≤◌, ◌<◌}
use Prim.Native.Char.{code}
use Prim.Native.String.{String}
use mathlib.Core.Path.{◌≡◌, refl, sym, ◌∙◌}
use mathlib.Core.Bool.{Bool, true, false, false≢true}
use mathlib.Core.List.{List, [], ◌∷◌, ◌++◌}
use mathlib.Core.Logic.{◌↔◌}
use native.Mathlib.Omega.{arith}
use atx_sys.Common.Tests.{◌==◌, if◌then◌else◌}
use atx_sys.Common.Lists.{length, take}

-- The bytes of a C string before its NUL, or of a buffer.
abbrev pub Bytes : Type 0
Bytes = List ℕ

abbrev pub codes : String → Bytes
codes String.[] = []
codes (String.◌∷◌ c s) = code c ∷ codes s

-- The byte that a pointer reads; a C string ends with a NUL.
abbrev pub peek : Bytes → ℕ
peek [] = 0
peek (c ∷ s) = c

abbrev pub advance : Bytes → Bytes
advance [] = []
advance (c ∷ s) = s

-- strncmp(x, y, n) == 0
unfoldable pub strncmp_same : ℕ → Bytes → Bytes → Bool
strncmp_same zero x y = true
strncmp_same (suc n) x y =
    let rest = strncmp_same n (advance x) (advance y) in
    if peek x == peek y then (if peek x == 0 then true else rest) else false

-- What `%.*s` prints of a pointer under the precision n.
unfoldable pub print_at_most : ℕ → Bytes → Bytes
print_at_most zero s = []
print_at_most (suc n) [] = []
print_at_most (suc n) (c ∷ s) = if c == 0 then [] else c ∷ print_at_most n s

-- A text without a NUL, as the content of a C string is.
abbrev pub IsText : Bytes → Type 0
IsText [] = Unit {0}
IsText (c ∷ s) = (0 < c) × IsText s

pub strncmp_same_comm : (n : ℕ) (x y : Bytes) → strncmp_same n x y ≡ strncmp_same n y x
unfolding strncmp_same
strncmp_same_comm zero x y = refl
strncmp_same_comm (suc n) x y = ground (arith, strncmp_same_comm n (advance x) (advance y))

pub strncmp_same_iff :
    (s x : Bytes) → IsText s → (strncmp_same (length s) x s ≡ true) ↔ (take (length s) x ≡ s)
unfolding strncmp_same
strncmp_same_iff [] x h = (λ _. refl, λ _. refl)
strncmp_same_iff (c ∷ s) [] h = ground arith
strncmp_same_iff (c ∷ s) (d ∷ x) h = ground (arith, strncmp_same_iff s x)

pub print_at_most_whole : (s post : Bytes) → IsText s → print_at_most (length s) (s ++ post) ≡ s
unfolding print_at_most
print_at_most_whole [] post h = refl
print_at_most_whole (c ∷ s) post h = ground (arith, print_at_most_whole s post)

pub length-print_at_most : (n : ℕ) (s : Bytes) → length (print_at_most n s) ≤ n
unfolding print_at_most
length-print_at_most zero s = omega arith
length-print_at_most (suc n) [] = omega arith
length-print_at_most (suc n) (c ∷ s) = ground (arith, length-print_at_most n s)

unfoldable pub bytes_eq : Bytes → Bytes → Bool
bytes_eq [] [] = true
bytes_eq [] (d ∷ t) = false
bytes_eq (c ∷ s) [] = false
bytes_eq (c ∷ s) (d ∷ t) = if c == d then bytes_eq s t else false

pub bytes_eq_iff : (s t : Bytes) → (bytes_eq s t ≡ true) ↔ (s ≡ t)
unfolding bytes_eq
bytes_eq_iff [] [] = ground arith
bytes_eq_iff [] (d ∷ t) = ground arith
bytes_eq_iff (c ∷ s) [] = ground arith
bytes_eq_iff (c ∷ s) (d ∷ t) = ground (arith, bytes_eq_iff s t)

-- Comparing under the length of the second text decides whether it is what stands there.
pub strncmp_same-bytes_eq :
    (s x : Bytes) → IsText s → strncmp_same (length s) x s ≡ bytes_eq (take (length s) x) s
unfolding strncmp_same bytes_eq
strncmp_same-bytes_eq [] x h = refl
strncmp_same-bytes_eq (c ∷ s) [] h = ground arith
strncmp_same-bytes_eq (c ∷ s) (d ∷ x) h = ground (arith, strncmp_same-bytes_eq s x)

pub strncmp_same-append :
    (s post w : Bytes)
    → IsText s
    → (strncmp_same (length s) (s ++ post) w ≡ true) ↔ (take (length s) w ≡ s)
unfolding strncmp_same
strncmp_same-append [] post w h = (λ _. refl, λ _. refl)
strncmp_same-append (c ∷ s) post [] h = ground arith
strncmp_same-append (c ∷ s) post (d ∷ w) h = ground (arith, strncmp_same-append s post w)

pub bytes_eq_refl : (s : Bytes) → bytes_eq s s ≡ true
bytes_eq_refl s = (bytes_eq_iff s s).1 refl

-- Two texts differ in their comparison only if they differ.
pub bytes_eq_ne : (s t : Bytes) → bytes_eq s t ≡ false → (s ≡ t → ⊥)
bytes_eq_ne s t h e = false≢true (sym h ∙ (bytes_eq_iff s t).1 e)
