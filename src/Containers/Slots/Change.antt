-- ===== src/Containers/Slots/Change.antt =====
-- A bucket that is set, and one that is emptied.
use atx_sys.Common.{
  ℕ, zero, suc, ◌<◌, ◌≡◌, ◌≢◌, refl, sym, ap, ◌∙◌, true, false, ◌==◌, [], ◌∷◌, length, none, some,
  if◌then◌else◌, Bytes, bytes_eq, bytes_eq_iff, bytes_eq_ne, Bool-cases, inl, inr, arith,
}
use atx_sys.Containers.Slots.{
  Slots, slot, lives, key_of, val_of, find, set_slot, empty_slot, AreDistinct, shown,
}
use atx_sys.Containers.Slots.Find.{find-key, find-bucket}

module _ {V : Type 0} where
  pub length-set_slot : (h : Slots V) (i : ℕ) (v : V) → length (set_slot h i v) ≡ length h
  unfolding set_slot
  length-set_slot [] i v = refl
  length-set_slot (none ∷ h) zero v = refl
  length-set_slot (some (j, u) ∷ h) zero v = refl
  length-set_slot (x ∷ h) (suc i) v = ap suc (length-set_slot h i v)

  pub find-set_slot : (h : Slots V) (i : ℕ) (v : V) (k : Bytes) → find (set_slot h i v) k ≡ find h k
  unfolding find set_slot
  find-set_slot [] i v k = refl
  find-set_slot (none ∷ h) zero v k = refl
  find-set_slot (none ∷ h) (suc i) v k = ap suc (find-set_slot h i v k)
  find-set_slot (some (j, u) ∷ h) zero v k = refl
  find-set_slot (some (j, u) ∷ h) (suc i) v k = rw (find-set_slot h i v k)

  pub AreDistinct-set_slot :
      (h : Slots V) (i : ℕ) (v : V) → AreDistinct h → AreDistinct (set_slot h i v)
  unfolding set_slot
  AreDistinct-set_slot [] i v t = tt
  AreDistinct-set_slot (none ∷ h) zero v t = t
  AreDistinct-set_slot (none ∷ h) (suc i) v t = AreDistinct-set_slot h i v t
  AreDistinct-set_slot (some (j, u) ∷ h) zero v t = t
  AreDistinct-set_slot (some (j, u) ∷ h) (suc i) v t =
      (rw (find-set_slot h i v j, length-set_slot h i v) t.0, AreDistinct-set_slot h i v t.1)

  pub val-set_slot :
      (d : V) (h : Slots V) (i j : ℕ) (v : V)
      → i < length h
      → lives (slot h i) ≡ true
      → val_of d (slot (set_slot h i v) j) ≡ (if i == j then v else val_of d (slot h j))
  unfolding slot set_slot
  val-set_slot d [] i j v lt e = absurd (omega arith)
  val-set_slot d (none ∷ h) zero j v lt e = cc
  val-set_slot d (some (k, u) ∷ h) zero zero v lt e = refl
  val-set_slot d (some (k, u) ∷ h) zero (suc j) v lt e = ground arith
  val-set_slot d (none ∷ h) (suc i) zero v lt e = ground arith
  val-set_slot d (none ∷ h) (suc i) (suc j) v lt e = ground (arith, val-set_slot d h i j v)
  val-set_slot d (some x ∷ h) (suc i) zero v lt e = ground arith
  val-set_slot d (some x ∷ h) (suc i) (suc j) v lt e = ground (arith, val-set_slot d h i j v)

  pub length-empty_slot : (h : Slots V) (i : ℕ) → length (empty_slot h i) ≡ length h
  unfolding empty_slot
  length-empty_slot [] i = refl
  length-empty_slot (x ∷ h) zero = refl
  length-empty_slot (x ∷ h) (suc i) = ap suc (length-empty_slot h i)

  -- The key of the emptied bucket is gone, and no other bucket has it.
  pub find-empty_slot :
      (h : Slots V) (i : ℕ) (j : Bytes)
      → AreDistinct h
      → i < length h
      → lives (slot h i) ≡ true
      → find (empty_slot h i) j ≡ (if bytes_eq (key_of (slot h i)) j then length h else find h j)
  unfolding find slot empty_slot
  find-empty_slot [] i j t lt e = absurd (omega arith)
  find-empty_slot (none ∷ h) zero j t lt e = cc
  find-empty_slot (none ∷ h) (suc i) j t lt e =
      rw (find-empty_slot h i j t (omega arith) e) (ground arith)
  find-empty_slot (some (k, v) ∷ h) zero j t lt e = elim (Bool-cases (bytes_eq k j)) [
    | inl same ↦ rw (same, ← (bytes_eq_iff k j).0 same) (ap suc t.0)
    | inr other ↦ rw other
  ]
  find-empty_slot (some (k, v) ∷ h) (suc i) j t lt e =
      let ne : bytes_eq k (key_of (slot h i)) ≡ false =
        elim (Bool-cases (bytes_eq k (key_of (slot h i)))) [
          | inr other ↦ other
          | inl same ↦ absurd (
              omega (
                arith,
                sym (ap (find h) ((bytes_eq_iff _ _).0 same)) ∙ t.0,
                find-bucket h i t.1 (omega arith) e,
              ))
        ] in
      rw (find-empty_slot h i j t.1 (omega arith) e) (elim (Bool-cases (bytes_eq k j)) [
        | inr other ↦ rw other (ground arith)
        | inl same ↦
            let apart : bytes_eq (key_of (slot h i)) j ≡ false =
              elim (Bool-cases (bytes_eq (key_of (slot h i)) j)) [
                | inr e' ↦ e'
                | inl e' ↦ absurd (
                    bytes_eq_ne k (key_of (slot h i)) ne
                      ((bytes_eq_iff _ _).0 same ∙ sym ((bytes_eq_iff _ _).0 e')))
              ] in
            rw (same, apart)
      ])

  pub find-empty_slot_none :
      (h : Slots V) (i : ℕ) (k : Bytes) → find h k ≡ length h → find (empty_slot h i) k ≡ length h
  unfolding find empty_slot
  find-empty_slot_none [] i k miss = refl
  find-empty_slot_none (none ∷ h) zero k miss = miss
  find-empty_slot_none (none ∷ h) (suc i) k miss =
      ap suc (find-empty_slot_none h i k (omega (arith, miss)))
  find-empty_slot_none (some (j, v) ∷ h) zero k miss = elim (Bool-cases (bytes_eq j k)) [
    | inl same ↦ absurd (omega (arith, (rw same at miss)))
    | inr other ↦ let rest : find h k ≡ length h = omega (arith, (rw other at miss)) in ap suc rest
  ]
  find-empty_slot_none (some (j, v) ∷ h) (suc i) k miss = elim (Bool-cases (bytes_eq j k)) [
    | inl same ↦ absurd (omega (arith, (rw same at miss)))
    | inr other ↦
        let rest : find h k ≡ length h = omega (arith, (rw other at miss)) in
        rw other (ap suc (find-empty_slot_none h i k rest))
  ]

  pub AreDistinct-empty_slot : (h : Slots V) (i : ℕ) → AreDistinct h → AreDistinct (empty_slot h i)
  unfolding empty_slot
  AreDistinct-empty_slot [] i t = tt
  AreDistinct-empty_slot (none ∷ h) zero t = t
  AreDistinct-empty_slot (some x ∷ h) zero t = t.1
  AreDistinct-empty_slot (none ∷ h) (suc i) t = AreDistinct-empty_slot h i t
  AreDistinct-empty_slot (some (k, v) ∷ h) (suc i) t =
      (find-empty_slot_none h i k t.0 ∙ sym (length-empty_slot h i), AreDistinct-empty_slot h i t.1)

  pub slot-empty_slot : (h : Slots V) (i j : ℕ) → i ≢ j → slot (empty_slot h i) j ≡ slot h j
  unfolding slot empty_slot
  slot-empty_slot [] i j ne = refl
  slot-empty_slot (x ∷ h) zero zero ne = absurd (ne refl)
  slot-empty_slot (x ∷ h) zero (suc j) ne = refl
  slot-empty_slot (x ∷ h) (suc i) zero ne = refl
  slot-empty_slot (x ∷ h) (suc i) (suc j) ne = slot-empty_slot h i j (λ e. ne (ap suc e))

  pub find-del_other :
      (d : V) (h : Slots V) (i : ℕ) (j : Bytes)
      → AreDistinct h
      → i < length h
      → lives (slot h i) ≡ true
      → shown d (empty_slot h i) (find (empty_slot h i) j)
        ≡ (if bytes_eq (key_of (slot h i)) j then none else shown d h (find h j))
  find-del_other d h i j t lt e =
      rw (find-empty_slot h i j t lt e, length-empty_slot h i)
        (elim (Bool-cases (bytes_eq (key_of (slot h i)) j)) [
          | inl same ↦ rw same (ground arith)
          | inr other ↦ rw other (elim (Bool-cases (find h j == length h)) [
            | inl lost ↦ rw lost
            | inr there ↦
                let found = find-key h j (ground arith) in
                let ne : i ≢ find h j =
                  λ same. bytes_eq_ne _ _ other (ap (λ p. key_of (slot h p)) same ∙ found.2) in
                rw (there, slot-empty_slot h i (find h j) ne)
          ])
        ])
