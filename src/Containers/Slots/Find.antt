-- ===== src/Containers/Slots/Find.antt =====
-- The bucket of a key.
use atx_sys.Common.{
  ℕ, zero, suc, ◌<◌, ◌≤◌, ◌≡◌, ◌≢◌, refl, sym, ap, ◌∙◌, true, [], ◌∷◌, length, none, some, Bytes,
  bytes_eq, bytes_eq_iff, bytes_eq_refl, Bool-cases, inl, inr, arith,
}
use atx_sys.Containers.Slots.{Slots, slot, lives, key_of, find, AreDistinct}

module _ {V : Type 0} where
  pub find_le : (h : Slots V) (k : Bytes) → find h k ≤ length h
  unfolding find
  find_le [] k = omega arith
  find_le (none ∷ h) k = omega (arith, find_le h k)
  find_le (some (j, v) ∷ h) k = ground (arith, find_le h k)

  pub find-key :
      (h : Slots V) (k : Bytes)
      → find h k ≢ length h
      → (find h k < length h)
        × (lives (slot h (find h k)) ≡ true)
        × (key_of (slot h (find h k)) ≡ k)
  unfolding find slot
  find-key [] k ne = absurd (ne refl)
  find-key (none ∷ h) k ne =
      let (a, b, c) = find-key h k (λ e. ne (ap suc e)) in (omega arith, b, c)
  find-key (some (j, v) ∷ h) k ne = elim (Bool-cases (bytes_eq j k)) [
    | inl same ↦ rw same (omega arith, refl, (bytes_eq_iff j k).0 same)
    | inr other ↦
        let (a, b, c) = find-key h k (λ e. (rw other at ne) (ap suc e)) in
        rw other (omega arith, b, c)
  ]

  pub find-bucket :
      (h : Slots V) (i : ℕ)
      → AreDistinct h
      → i < length h
      → lives (slot h i) ≡ true
      → find h (key_of (slot h i)) ≡ i
  unfolding find slot
  find-bucket [] i t lt e = absurd (omega arith)
  find-bucket (none ∷ h) zero t lt e = cc
  find-bucket (none ∷ h) (suc i) t lt e = ap suc (find-bucket h i t (omega arith) e)
  find-bucket (some (j, v) ∷ h) zero t lt e = rw (bytes_eq_refl j)
  find-bucket (some (j, v) ∷ h) (suc i) t lt e =
      let rest = find-bucket h i t.1 (omega arith) e in
      elim (Bool-cases (bytes_eq j (key_of (slot h i)))) [
        | inr other ↦ rw other (ap suc rest)
        | inl same ↦
            absurd (omega (arith, sym (ap (find h) ((bytes_eq_iff _ _).0 same)) ∙ t.0, rest))
      ]
