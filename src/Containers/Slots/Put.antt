-- ===== src/Containers/Slots/Put.antt =====
-- A key that is put.
use atx_sys.Common.{
  ℕ, zero, suc, ◌+◌, ◌<◌, ◌≡◌, refl, sym, false, ◌==◌, ==_iff, [], ◌∷◌, ◌++◌, length, length-append,
  none, some, if◌then◌else◌, Bytes, bytes_eq, bytes_eq_iff, bytes_eq_refl, bytes_eq_ne, Bool-cases,
  inl, inr, arith,
}
use atx_sys.Containers.Slots.{Slots, slot, find, put_slot, AreDistinct, shown}
use atx_sys.Containers.Slots.Find.{find_le}

module _ {V : Type 0} (d : V) where
  pub find-append :
      (h : Slots V) (k : Bytes) (j : Bytes)
      → find (h ++ some (k, d) ∷ []) j ≡ (
          if find h j == length h
          then (if bytes_eq k j then length h else suc (length h))
          else find h j)
  unfolding find
  find-append [] k j = ground arith
  find-append (none ∷ h) k j = rw (find-append h k j) (ground arith)
  find-append (some (i, v) ∷ h) k j = rw (find-append h k j) (ground arith)

  pub slot-append : (h g : Slots V) (i : ℕ) → i < length h → slot (h ++ g) i ≡ slot h i
  unfolding slot
  slot-append [] g i lt = absurd (omega arith)
  slot-append (x ∷ h) g zero lt = refl
  slot-append (x ∷ h) g (suc i) lt = slot-append h g i (omega arith)

  pub AreDistinct-put :
      (h : Slots V) (k : Bytes)
      → AreDistinct h
      → find h k ≡ length h
      → AreDistinct (h ++ some (k, d) ∷ [])
  unfolding find
  AreDistinct-put [] k t miss = (refl, tt)
  AreDistinct-put (none ∷ h) k t miss = AreDistinct-put h k t (omega (arith, miss))
  AreDistinct-put (some (j, v) ∷ h) k t miss = elim (Bool-cases (bytes_eq j k)) [
    | inl same ↦ absurd (omega (arith, (rw same at miss)))
    | inr other ↦
        let rest : find h k ≡ length h = omega (arith, (rw other at miss)) in
        let apart : bytes_eq k j ≡ false = elim (Bool-cases (bytes_eq k j)) [
          | inr e ↦ e
          | inl e ↦ absurd (bytes_eq_ne j k other (sym ((bytes_eq_iff k j).0 e)))
        ] in
        (
          ground (arith, find-append h k j, t.0, apart, length-append {0} h (some (k, d) ∷ [])),
          AreDistinct-put h k t.1 rest,
        )
  ]

  pub AreDistinct-put_slot :
      (h : Slots V) (k : Bytes) → AreDistinct h → AreDistinct (put_slot d h k).0
  unfolding put_slot
  AreDistinct-put_slot h k t = elim (Bool-cases (find h k == length h)) [
    | inl miss ↦ rw miss (AreDistinct-put h k t ((==_iff _ _).0 miss))
    | inr hit ↦ rw hit t
  ]

  pub find-put_slot :
      (h : Slots V) (k : Bytes)
      → ((put_slot d h k).1 < length (put_slot d h k).0)
        × (find (put_slot d h k).0 k ≡ (put_slot d h k).1)
  unfolding put_slot
  find-put_slot h k = elim (Bool-cases (find h k == length h)) [
    | inl miss ↦ rw miss (
      omega (arith, length-append {0} h (some (k, d) ∷ [])),
      rw (find-append h k k, miss, bytes_eq_refl k),
    )
    | inr hit ↦ rw hit (ground (arith, find_le h k), refl)
  ]

  pub find-put_other :
      (h : Slots V) (k j : Bytes)
      → bytes_eq k j ≡ false
      → shown d (put_slot d h k).0 (find (put_slot d h k).0 j) ≡ shown d h (find h j)
  unfolding put_slot
  find-put_other h k j other = elim (Bool-cases (find h k == length h)) [
    | inr hit ↦ rw hit
    | inl miss ↦
        let grown : length (h ++ some (k, d) ∷ []) ≡ length h + 1 =
          length-append h (some (k, d) ∷ []) in
        rw (miss, find-append h k j, other, grown)
          (elim (Bool-cases (find h j == length h)) [
            | inl lost ↦ rw lost (ground arith)
            | inr there ↦
                let lt : find h j < length h = ground (arith, find_le h j) in
                rw (there, slot-append h (some (k, d) ∷ []) (find h j) lt) (ground arith)
          ])
  ]
