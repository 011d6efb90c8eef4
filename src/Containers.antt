-- ===== src/Containers.antt =====
-- containers.h: the map that MAP_INIT generates over klib's khash.
--
-- khash is a parameter: its operations, and what it documents of a table that they made. A bucket is
-- its number, and the value of a bucket without data is not specified. A node is a pointer of the
-- generated type, which the map owns.
pub mod Lookup
pub mod Update
pub mod Free
pub mod Routes
pub mod Slots
pub mod Fifo
use atx_sys.Common.{
  ℕ, zero, suc, ◌+◌, ◌<◌, ◌≡◌, ◌≢◌, Bool, true, false, ◌==◌, List, [], ◌∷◌, map, Option, none, some,
  if◌then◌else◌, Bytes, bytes_eq, ℤ, is_negative, Result, ok, fault, failed_assert,
}

pub record Khash (V : Type 0) : Type 1 where
  pub Hash : Type 0
  pub init : Hash
  pub end_of : Hash → ℕ
  pub exist : Hash → ℕ → Bool
  pub key : Hash → ℕ → Bytes
  pub val : Hash → ℕ → V
  pub size : Hash → ℕ
  pub get : Hash → Bytes → ℕ
  pub put : Hash → Bytes → Hash × ℕ × ℤ
  pub set_val : Hash → ℕ → V → Hash
  pub del : Hash → ℕ → Hash
  -- The tables that the operations make.
  pub IsTable : Hash → Type 0
  pub init-IsTable : IsTable init
  pub end-init : end_of init ≡ 0
  pub put-IsTable : (h : Hash) (k : Bytes) → IsTable h → IsTable (put h k).0
  pub set_val-IsTable : (h : Hash) (i : ℕ) (v : V) → IsTable h → IsTable (set_val h i v)
  pub del-IsTable : (h : Hash) (i : ℕ) → IsTable h → IsTable (del h i)
  -- kh_get: the bucket that holds the key, or the end.
  pub get-key :
      (h : Hash) (k : Bytes)
      → IsTable h
      → get h k ≢ end_of h
      → (get h k < end_of h) × (exist h (get h k) ≡ true) × (key h (get h k) ≡ k)
  pub get-bucket :
      (h : Hash) (i : ℕ) → IsTable h → i < end_of h → exist h i ≡ true → get h (key h i) ≡ i
  -- kh_put: a bucket that holds the key, and no other key moves away from its value.
  pub get-put :
      (h : Hash) (k : Bytes)
      → IsTable h
      → is_negative (put h k).2 ≡ false
      → ((put h k).1 < end_of (put h k).0) × (get (put h k).0 k ≡ (put h k).1)
  pub put-other :
      (h : Hash) (k j : Bytes)
      → IsTable h
      → is_negative (put h k).2 ≡ false
      → bytes_eq k j ≡ false
      → (if get (put h k).0 j == end_of (put h k).0
          then none
          else some (val (put h k).0 (get (put h k).0 j)))
        ≡ (if get h j == end_of h then none else some (val h (get h j)))
  pub get-set_val : (h : Hash) (i : ℕ) (v : V) (k : Bytes) → get (set_val h i v) k ≡ get h k
  pub end-set_val : (h : Hash) (i : ℕ) (v : V) → end_of (set_val h i v) ≡ end_of h
  pub val-set_val :
      (h : Hash) (i j : ℕ) (v : V)
      → i < end_of h
      → exist h i ≡ true
      → val (set_val h i v) j ≡ (if i == j then v else val h j)
  -- kh_del
  pub del-other :
      (h : Hash) (i : ℕ) (j : Bytes)
      → IsTable h
      → i < end_of h
      → exist h i ≡ true
      → (if get (del h i) j == end_of (del h i)
          then none
          else some (val (del h i) (get (del h i) j)))
        ≡ (if bytes_eq (key h i) j
            then none
            else if get h j == end_of h
            then none
            else some (val h (get h j)))

-- The function is called with each key and node, and its context is passed on.
abbrev pub calls {ℓ} : {V : Type 0} {S : Type ℓ} → (Bytes → V → S → S) → S → List (Bytes × V) → S
calls fn ctx [] = ctx
calls fn ctx ((name, node) ∷ es) = calls fn (fn name node ctx) es

module _ {V : Type 0} (k : Khash V) where
  open k use {Hash, init, end_of, exist, key, val, size, get, put, set_val, del}

  unfoldable pub map_create : Hash
  map_create = init

  -- The buckets with data, from bucket i on, with n buckets left: the loop from kh_begin to kh_end.
  unfoldable pub buckets : Hash → ℕ → ℕ → List (Bytes × V)
  buckets h i zero = []
  buckets h i (suc n) =
      let rest : List (Bytes × V) = buckets h (suc i) n in
      if exist h i then (key h i, val h i) ∷ rest else rest

  unfoldable pub map_entries : Hash → List (Bytes × V)
  unfolding buckets
  map_entries h = buckets h 0 (end_of h)

  -- The nodes that are freed, in order.
  unfoldable pub map_destroy : Hash → List V
  map_destroy h = map (λ e. e.1) (map_entries h)

  -- The node is put in place of one that the key may have had.
  unfoldable pub map_add : Hash → Bytes → V → Result Hash
  map_add h name node =
      let (h', i, ret) = put h name in
      if is_negative ret then fault failed_assert else ok (set_val h' i node)

  -- The table, and the nodes that are freed.
  unfoldable pub map_remove_iter : Hash → ℕ → Hash × List V
  map_remove_iter h i = (del h i, val h i ∷ [])

  unfoldable pub map_remove : Hash → Bytes → Hash × List V
  map_remove h serial =
      if get h serial == end_of h then (h, []) else map_remove_iter h (get h serial)

  unfoldable pub map_get : Hash → Bytes → Option V
  map_get h serial = if get h serial == end_of h then none else some (val h (get h serial))

  unfoldable pub map_resolve : Hash → ℕ → V
  map_resolve h i = val h i

  unfoldable pub map_key : Hash → Bytes → ℕ
  map_key h serial = if get h serial == end_of h then 0 else get h serial

  unfoldable pub map_size : Hash → ℕ
  map_size h = size h

  unfoldable pub map_foreach {ℓ} : {S : Type ℓ} → Hash → (Bytes → V → S → S) → S → S
  map_foreach h fn ctx = calls fn ctx (map_entries h)
