-- ===== src/Http/Routes/Order.antt =====
-- The order in which the hash table iterates.
use mathlib.Core.List.{Mem, Perm, mem-cons_of_mem, mem-cons_self}
use mathlib.Core.List.Permᴰ
use mathlib.Core.List.{Permᴰ}
use mathlib.Core.Option.{is_set}
use mathlib.Core.Logic.{∥∥₁_elim}
use atx_sys.Common.{
  ◌≡◌, refl, ap, ◌∙◌, true, List, ◌∷◌, some, length, Bytes, Bool-cases, inl, inr, print_at_most,
}
use atx_sys.Http.Routes.{RouteMap, route_matches, check_paths, resolve_route}

module _ {R : Type 0} (path : Bytes) where
  -- The entries that match the path have the same route.
  abbrev pub Agree : List (Bytes × R) → Type 0
  Agree m =
      (e f : Bytes × R)
      → Mem e m
      → Mem f m
      → route_matches e.0 path ≡ true
      → route_matches f.0 path ≡ true
      → e.1 ≡ f.1

  Agree-tail : {e : Bytes × R} {m : List (Bytes × R)} → Agree (e ∷ m) → Agree m
  Agree-tail {e} a f g mf mg = a f g (mem-cons_of_mem e mf) (mem-cons_of_mem e mg)

  Agree-perm : {m n : List (Bytes × R)} → Permᴰ m n → Agree m → Agree n
  Agree-perm d a f g mf mg = a f g (Permᴰ.mem (Permᴰ.symm d) mf) (Permᴰ.mem (Permᴰ.symm d) mg)

  check_paths-swap :
      (e f : Bytes × R) (m : List (Bytes × R))
      → Agree (e ∷ f ∷ m)
      → check_paths path (e ∷ f ∷ m) ≡ check_paths path (f ∷ e ∷ m)
  unfolding check_paths
  check_paths-swap e f m a = elim (Bool-cases (route_matches e.0 path)) [
    | inr x ↦ rw x
    | inl x ↦ elim (Bool-cases (route_matches f.0 path)) [
      | inr y ↦ rw (x, y)
      | inl y ↦ rw (x, y) (ap some (a e f mem-cons_self (mem-cons_of_mem e mem-cons_self) x y))
    ]
  ]

  check_paths-perm :
      {m n : List (Bytes × R)} → Permᴰ m n → Agree m → check_paths path m ≡ check_paths path n
  unfolding check_paths
  check_paths-perm Permᴰ.nil a = refl
  check_paths-perm (Permᴰ.cons e d) a = rw (e, check_paths-perm d (Agree-tail a))
  check_paths-perm (Permᴰ.swap {a = x} {b = y} {l = l} e f) a =
      rw (← e, ← f) (check_paths-swap x y l a)
  check_paths-perm (Permᴰ.trans d d') a =
      check_paths-perm d a ∙ check_paths-perm d' (Agree-perm d a)

module _ {R : Type 0} (ops : RouteMap R) where
  open ops use {Map, get, entries}

  -- resolve_route does not depend on the order in which the hash table iterates, when the wildcards
  -- that cover the path agree.
  pub resolve_route-perm :
      (routes routes' : Map) (uri : Bytes)
      → IsSet R
      → get routes (print_at_most (length uri) uri) ≡ get routes' (print_at_most (length uri) uri)
      → Perm (entries routes) (entries routes')
      → Agree (print_at_most (length uri) uri) (entries routes)
      → resolve_route ops routes uri ≡ resolve_route ops routes' uri
  unfolding resolve_route
  resolve_route-perm routes routes' uri set same order agree =
      let found : check_paths (print_at_most (length uri) uri) (entries routes)
          ≡ check_paths (print_at_most (length uri) uri) (entries routes') =
        ∥∥₁_elim order (is_set set _ _) (λ d. check_paths-perm _ d agree) in
      rw (same, found)
