-- ===== src/Containers/Slots.antt =====
-- A table that does what khash documents: its buckets are a list, searched from the front.
pub mod Find
pub mod Put
pub mod Change
pub mod Table
use atx_sys.Common.{
  ℕ, zero, suc, ◌+◌, ◌<◌, ◌≤◌, ◌≡◌, ◌≢◌, refl, sym, ap, ◌∙◌, Bool, true, false, ◌==◌, ==_iff, List,
  [], ◌∷◌, ◌++◌, length, length-append, Option, none, some, if◌then◌else◌, Bytes, bytes_eq,
  bytes_eq_iff, bytes_eq_refl, bytes_eq_ne, Bool-cases, inl, inr, arith, ℤ, pos, is_negative,
}

abbrev pub Slots : Type 0 → Type 0
Slots V = List (Option (Bytes × V))

module _ {V : Type 0} where
  unfoldable pub slot : Slots V → ℕ → Option (Bytes × V)
  slot [] i = none
  slot (x ∷ h) zero = x
  slot (x ∷ h) (suc i) = slot h i

  abbrev pub lives : Option (Bytes × V) → Bool
  lives none = false
  lives (some e) = true

  abbrev pub key_of : Option (Bytes × V) → Bytes
  key_of none = []
  key_of (some e) = e.0

  abbrev pub val_of : V → Option (Bytes × V) → V
  val_of d none = d
  val_of d (some e) = e.1

  abbrev pub count_lives : Slots V → ℕ
  count_lives [] = 0
  count_lives (none ∷ h) = count_lives h
  count_lives (some e ∷ h) = suc (count_lives h)

  unfoldable pub find : Slots V → Bytes → ℕ
  find [] k = 0
  find (none ∷ h) k = suc (find h k)
  find (some (j, v) ∷ h) k = if bytes_eq j k then 0 else suc (find h k)

  unfoldable pub set_slot : Slots V → ℕ → V → Slots V
  set_slot [] i v = []
  set_slot (none ∷ h) zero v = none ∷ h
  set_slot (some (j, u) ∷ h) zero v = some (j, v) ∷ h
  set_slot (x ∷ h) (suc i) v = x ∷ set_slot h i v

  unfoldable pub empty_slot : Slots V → ℕ → Slots V
  empty_slot [] i = []
  empty_slot (x ∷ h) zero = none ∷ h
  empty_slot (x ∷ h) (suc i) = x ∷ empty_slot h i

  unfoldable pub put_slot : V → Slots V → Bytes → Slots V × ℕ × ℤ
  put_slot d h k =
      if find h k == length h
      then (h ++ some (k, d) ∷ [], length h, pos 1)
      else (h, find h k, pos 0)

  -- No key stands in two buckets.
  abbrev pub AreDistinct : Slots V → Type 0
  AreDistinct [] = Unit {0}
  AreDistinct (none ∷ h) = AreDistinct h
  AreDistinct (some (k, v) ∷ h) = (find h k ≡ length h) × AreDistinct h

  abbrev pub shown : V → Slots V → ℕ → Option V
  shown d h i = if i == length h then none else some (val_of d (slot h i))
