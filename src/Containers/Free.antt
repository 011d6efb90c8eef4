-- ===== src/Containers/Free.antt =====
-- Which nodes the map frees.
use mathlib.Core.List.{Mem, mem-cons, not-mem-nil}
use mathlib.Core.Logic.Or
use atx_sys.Common.{
  ℕ, zero, suc, ◌+◌, ◌≡◌, ◌≢◌, false, ◌==◌, map, some, Bytes, bytes_eq, Bool-cases, inl, inr, arith,
  ok,
}
use atx_sys.Containers.{Khash, buckets, map_entries, map_destroy, map_add, map_get}
use atx_sys.Containers.Update.{map_get-map_add}

module _ {V : Type 0} (k : Khash V) where
  open k use {Hash, end_of, exist, key, val, get, IsTable, get-key, get-bucket}

  -- A node that no key has stands in no bucket.
  not-Mem-buckets :
      (h : Hash) (u : V) (i n : ℕ)
      → IsTable h
      → i + n ≡ end_of h
      → ((j : Bytes) → map_get k h j ≢ some u)
      → ¬ Mem u (map (λ e. e.1) (buckets k h i n))
  unfolding buckets map_get
  not-Mem-buckets h u i zero t size none_has = not-mem-nil
  not-Mem-buckets h u i (suc n) t size none_has =
      let rest = not-Mem-buckets h u (suc i) n t (omega arith) none_has in
      elim (Bool-cases (exist h i)) [
        | inr e ↦ rw e rest
        | inl e ↦
            let at : get h (key h i) ≡ i = get-bucket h i t (omega arith) e in
            let inside : (i == end_of h) ≡ false = ground arith in
            let ne : u ≢ val h i = λ same. none_has (key h i) (rw (at, inside, same)) in
            rw e (λ m. Or.elim (λ x. elim x [ ]) (mem-cons.0 m) ne rest)
      ]

  -- The nodes that map_destroy frees are among those that some key has.
  pub not-Mem-map_destroy :
      (h : Hash) (u : V)
      → IsTable h
      → ((j : Bytes) → map_get k h j ≢ some u)
      → ¬ Mem u (map_destroy k h)
  unfolding map_destroy map_entries
  not-Mem-map_destroy h u t none_has = not-Mem-buckets h u 0 (end_of h) t (omega arith) none_has

  -- A node that map_add replaces by another, and that no other key has, is not freed by
  -- map_destroy: the map has lost it.
  pub map_destroy-map_add :
      (h h' : Hash) (name : Bytes) (old new : V)
      → IsTable h
      → map_get k h name ≡ some old
      → ((j : Bytes) → bytes_eq name j ≡ false → map_get k h j ≢ some old)
      → old ≢ new
      → map_add k h name new ≡ ok h'
      → ¬ Mem old (map_destroy k h')
  map_destroy-map_add h h' name old new t had alone ne e =
      not-Mem-map_destroy h' old (map_get-map_add k h h' name name new t e).0 λ j has.
        elim (Bool-cases (bytes_eq name j)) [
          | inl same ↦ absurd (ne (cc (rw same at (map_get-map_add k h h' name j new t e).1, has)))
          | inr other ↦
              absurd
                (alone j other (cc (rw other at (map_get-map_add k h h' name j new t e).1, has)))
        ]
