-- ===== src/Containers/Update.antt =====
-- The map after an insertion and after a removal.
use mathlib.Core.Bool.{false≢true}
use atx_sys.Common.{
  [], ◌∷◌, ℕ, ◌<◌, ◌≡◌, ◌≢◌, refl, sym, ap, ◌∙◌, Bool, true, false, ◌==◌, ==_iff, List, Option,
  none, some, if◌then◌else◌, Bytes, bytes_eq, bytes_eq_iff, bytes_eq_refl, Bool-cases, inl, inr,
  arith, ℤ, is_negative, Result, ok, fault,
}
use atx_sys.Containers.{Khash, map_create, map_add, map_remove, map_get}

abbrev pub the_node : {V : Type 0} → Option V → List V
the_node none = []
the_node (some v) = v ∷ []

module _ {V : Type 0} (k : Khash V) where
  open k use {
    Hash, init, end_of, exist, key, val, get, put, set_val, del, IsTable, get-key, get-bucket,
    get-put, put-other, put-IsTable, set_val-IsTable, del-IsTable, get-set_val, end-set_val,
    val-set_val, del-other, init-IsTable, end-init,
  }

  pub map_get-map_create : (j : Bytes) → map_get k (map_create k) j ≡ none
  unfolding map_get map_create
  map_get-map_create j = elim (Bool-cases (get init j == end_of init)) [
    | inl e ↦ rw e
    | inr e ↦
        let ne : get init j ≢ end_of init = ground arith in
        absurd (omega (arith, end-init, (get-key init j init-IsTable ne).0))
  ]

  -- The bucket that kh_put gives holds the new node, and no other key's bucket is that one.
  put_bucket :
      (h : Hash) (name j : Bytes) (v : V)
      → IsTable h
      → is_negative (put h name).2 ≡ false
      → map_get k (set_val (put h name).0 (put h name).1 v) j
        ≡ (if bytes_eq name j then some v else map_get k h j)
  unfolding map_get
  put_bucket h name j v t fine =
      let h' = (put h name).0 in
      let i = (put h name).1 in
      let (lt, at) = get-put h name t fine in
      let inside : i ≢ end_of h' = omega arith in
      let mine = get-key h' name (put-IsTable h name t) (λ e. inside (sym at ∙ e)) in
      let lives : exist h' i ≡ true = ap (exist h') (sym at) ∙ mine.1 in
      elim (Bool-cases (bytes_eq name j)) [
        | inl same ↦
            let here : get h' j ≡ i = ap (get h') (sym ((bytes_eq_iff _ _).0 same)) ∙ at in
            let within : (i == end_of h') ≡ false = ground arith in
            let self : (i == i) ≡ true = ground arith in
            rw (
              same,
              get-set_val h' i v j,
              end-set_val h' i v,
              here,
              within,
              val-set_val h' i i v lt lives,
              self,
            )
        | inr other ↦
            rw (other, get-set_val h' i v j, end-set_val h' i v)
              (elim (Bool-cases (get h' j == end_of h')) [
                | inl miss ↦ rw miss (rw miss at (put-other h name j t fine other))
                | inr hit ↦
                    let ne : get h' j ≢ end_of h' = ground arith in
                    let found = get-key h' j (put-IsTable h name t) ne in
                    let apart : (i == get h' j) ≡ false = elim (Bool-cases (i == get h' j)) [
                      | inr no_one ↦ no_one
                      | inl clash ↦ absurd (
                          false≢true (
                            sym other
                            ∙ (bytes_eq_iff _ _).1
                                (sym mine.2 ∙ ap (key h') (at ∙ (==_iff _ _).0 clash) ∙ found.2)))
                    ] in
                    rw (hit, val-set_val h' i (get h' j) v lt lives, apart)
                      (rw hit at (put-other h name j t fine other))
              ])
      ]

  -- A map_add that does not fail its assertion gives a table in which the key has the new node, and
  -- every other key what it had.
  pub map_get-map_add :
      (h h' : Hash) (name j : Bytes) (v : V)
      → IsTable h
      → map_add k h name v ≡ ok h'
      → IsTable h' × (map_get k h' j ≡ (if bytes_eq name j then some v else map_get k h j))
  unfolding map_add
  map_get-map_add h h' name j v t e = elim (Bool-cases (is_negative (put h name).2)) [
    | inl failed ↦ absurd (clash (rw failed at e))
    | inr fine ↦ go (rw fine at e) fine
  ]
    where
      clash : {h'' : Hash} → fault atx_sys.Common.failed_assert ≡ ok h'' → ⊥
      clash h = cc

      go :
          ok (set_val (put h name).0 (put h name).1 v) ≡ ok h'
          → is_negative (put h name).2 ≡ false
          → IsTable h' × (map_get k h' j ≡ (if bytes_eq name j then some v else map_get k h j))
      go same fine =
          let eq : set_val (put h name).0 (put h name).1 v ≡ h' = cc in
          rw (← eq) (set_val-IsTable _ _ v (put-IsTable h name t), put_bucket h name j v t fine)

  -- After map_remove the key has no node and every other key what it had; the node that the key
  -- had, and no other, is freed.
  pub map_get-map_remove :
      (h : Hash) (serial j : Bytes)
      → IsTable h
      → IsTable (map_remove k h serial).0
        × (map_get k (map_remove k h serial).0 j
            ≡ (if bytes_eq serial j then none else map_get k h j))
        × ((map_remove k h serial).1 ≡ the_node (map_get k h serial))
  unfolding map_get map_remove atx_sys.Containers.map_remove_iter
  map_get-map_remove h serial j t = elim (Bool-cases (get h serial == end_of h)) [
    | inl miss ↦ rw miss (t, go miss, refl)
    | inr hit ↦
        let ne : get h serial ≢ end_of h = ground arith in
        let (lt, e, same) = get-key h serial t ne in
        rw hit (del-IsTable h _ t, rw same at (del-other h (get h serial) j t lt e), refl)
  ]
    where
      go :
          (get h serial == end_of h) ≡ true
          → (if get h j == end_of h then none else some (val h (get h j))) ≡ (
              if bytes_eq serial j
              then none
              else if get h j == end_of h
              then none
              else some (val h (get h j)))
      go miss = elim (Bool-cases (bytes_eq serial j)) [
        | inr other ↦ rw other
        | inl same ↦ rw (same, ← (bytes_eq_iff _ _).0 same, miss)
      ]
