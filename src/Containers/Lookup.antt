-- ===== src/Containers/Lookup.antt =====
-- What map_get finds among the entries of the iteration.
use atx_sys.Common.{
  ℕ, zero, suc, ◌+◌, ◌<◌, ◌≤◌, ◌≡◌, ◌≢◌, refl, sym, ap, ◌∙◌, true, false, ◌==◌, ==_iff, none, some,
  Bytes, bytes_eq, bytes_eq_iff, Bool-cases, inl, inr, arith,
}
use atx_sys.Http.Routes.{lookup}
use atx_sys.Containers.{Khash, buckets, map_entries, map_get}

module _ {V : Type 0} (k : Khash V) where
  open k use {Hash, end_of, exist, key, val, get, IsTable, get-key, get-bucket}

  -- A bucket before the one of a key has another key.
  other_bucket :
      (h : Hash) (j : Bytes) (i : ℕ)
      → IsTable h
      → i < end_of h
      → exist h i ≡ true
      → get h j ≢ i
      → bytes_eq (key h i) j ≡ false
  other_bucket h j i t lt e ne = elim (Bool-cases (bytes_eq (key h i) j)) [
    | inr other ↦ other
    | inl same ↦ absurd (ne (ap (get h) (sym ((bytes_eq_iff _ _).0 same)) ∙ get-bucket h i t lt e))
  ]

  -- The key is in none of the buckets.
  lookup-buckets-none :
      (h : Hash) (j : Bytes) (i n : ℕ)
      → IsTable h
      → i + n ≡ end_of h
      → get h j ≡ end_of h
      → lookup j (buckets k h i n) ≡ none
  unfolding buckets
  lookup-buckets-none h j i zero t size miss = refl
  lookup-buckets-none h j i (suc n) t size miss =
      let rest = lookup-buckets-none h j (suc i) n t (omega arith) miss in
      elim (Bool-cases (exist h i)) [
        | inl e ↦ rw (e, other_bucket h j i t (omega arith) e (omega arith)) rest
        | inr e ↦ rw e rest
      ]

  -- The key's bucket is still to come.
  lookup-buckets-some :
      (h : Hash) (j : Bytes) (i n : ℕ)
      → IsTable h
      → i + n ≡ end_of h
      → i ≤ get h j
      → get h j ≢ end_of h
      → lookup j (buckets k h i n) ≡ some (val h (get h j))
  unfolding buckets
  lookup-buckets-some h j i zero t size le hit = absurd (omega (arith, get-key h j t hit))
  lookup-buckets-some h j i (suc n) t size le hit =
      let found = get-key h j t hit in
      elim (Bool-cases (get h j == i)) [
        | inl here ↦
            let at : get h j ≡ i = (==_iff _ _).0 here in
            let e : exist h i ≡ true = ap (exist h) (sym at) ∙ found.1 in
            let same : bytes_eq (key h i) j ≡ true =
              (bytes_eq_iff _ _).1 (ap (key h) (sym at) ∙ found.2) in
            rw (e, same) (ap (λ p. some (val h p)) (sym at))
        | inr later ↦
            let ne : get h j ≢ i = ground arith in
            let rest = lookup-buckets-some h j (suc i) n t (omega arith) (omega arith) hit in
            elim (Bool-cases (exist h i)) [
              | inl e ↦ rw (e, other_bucket h j i t (omega arith) e ne) rest
              | inr e ↦ rw e rest
            ]
      ]

  -- On a table that khash's operations made, map_get is the lookup of the key in the list of the
  -- entries, in the order of the iteration.
  pub map_get-entries :
      (h : Hash) (j : Bytes) → IsTable h → map_get k h j ≡ lookup j (map_entries k h)
  unfolding map_get map_entries
  map_get-entries h j t = elim (Bool-cases (get h j == end_of h)) [
    | inl miss ↦
        rw miss (sym (lookup-buckets-none h j 0 (end_of h) t (omega arith) ((==_iff _ _).0 miss)))
    | inr hit ↦
        let ne : get h j ≢ end_of h = ground arith in
        rw hit (sym (lookup-buckets-some h j 0 (end_of h) t (omega arith) (omega arith) ne))
  ]
