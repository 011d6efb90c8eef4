-- ===== src/Containers/Fifo/Destroy.antt =====
-- What the list frees.
use mathlib.Core.Option.{none-ne-some}
use atx_sys.Common.{
  ℕ, suc, ◌≡◌, refl, sym, ap, ◌∙◌, List, [], ◌∷◌, ◌++◌, map, length, Option, none, some, ok, ◌>>=◌,
  append_assoc, append-nil,
}
use atx_sys.Containers.Fifo.{
  Klist, uncons, held, popped, list_create, list_push, list_pop, destroy_loop, list_destroy,
}

-- The nodes before the first NULL.
abbrev pub until_null : {V : Type 0} → List (Option V) → List V
until_null [] = []
until_null (none ∷ ps) = []
until_null (some v ∷ ps) = v ∷ until_null ps

until_null-some : {V : Type 0} (vs : List V) → until_null (map some vs) ≡ vs
until_null-some [] = refl
until_null-some (v ∷ vs) = ap (v ∷◌) (until_null-some vs)

-- What a pop leaves and returns.
abbrev pub rest_of : {V : Type 0} → List (Option V) → List (Option V)
rest_of [] = []
rest_of (p ∷ ps) = ps

abbrev pub first_of : {V : Type 0} → List (Option V) → Option V
first_of [] = none
first_of (p ∷ ps) = p

module _ {V : Type 0} (k : Klist V) where
  open k use {
    L, push, shift, size, contents, contents-init, contents-push, contents-shift, size-contents,
  }

  popped-uncons :
      (l : L) (o : Option (L × Option V)) (ps : List (Option V))
      → contents l ≡ ps
      → held contents o ≡ uncons ps
      → (contents (popped k l o).0 ≡ rest_of ps) × ((popped k l o).1 ≡ first_of ps)
  popped-uncons l none [] e h = (e, refl)
  popped-uncons l none (p ∷ ps) e h = absurd (none-ne-some (ps, p) h)
  popped-uncons l (some (l', p)) [] e h = absurd (none-ne-some (contents l', p) (sym h))
  popped-uncons l (some (l', q)) (p ∷ ps) e h = (ap (λ x. x.0) same, ap (λ x. x.1) same)
    where
      same : ◌≡◌ {A = List (Option V) × Option V} (contents l', q) (ps, p)
      same = cc

  pub contents-list_pop :
      (l : L)
      → (contents (list_pop k l).0 ≡ rest_of (contents l))
        × ((list_pop k l).1 ≡ first_of (contents l))
  unfolding list_pop
  contents-list_pop l = popped-uncons l (shift l) (contents l) refl (contents-shift l)

  destroy_loop-null : (fuel : ℕ) (q : L × Option V) → q.1 ≡ none → destroy_loop k fuel q ≡ ok []
  unfolding destroy_loop
  destroy_loop-null fuel (l, none) h = refl
  destroy_loop-null fuel (l, some v) h = absurd (none-ne-some v (sym h))

  destroy_loop-node :
      (fuel : ℕ) (q : L × Option V) (v : V)
      → q.1 ≡ some v
      → destroy_loop k (suc fuel) q
        ≡ (destroy_loop k fuel (list_pop k q.0) >>= λ freed. ok (v ∷ freed))
  unfolding destroy_loop
  destroy_loop-node fuel (l, o) v h = rw h

  destroy_loop-until_null :
      (ps : List (Option V)) (l : L)
      → contents l ≡ ps
      → destroy_loop k (length ps) (list_pop k l) ≡ ok (until_null ps)
  destroy_loop-until_null [] l e =
      destroy_loop-null 0 (list_pop k l) ((contents-list_pop l).1 ∙ ap first_of e)
  destroy_loop-until_null (none ∷ ps) l e =
      destroy_loop-null (suc (length ps)) (list_pop k l) ((contents-list_pop l).1 ∙ ap first_of e)
  destroy_loop-until_null (some v ∷ ps) l e =
      let (rest, first) = contents-list_pop l in
      destroy_loop-node (length ps) (list_pop k l) v (first ∙ ap first_of e)
      ∙ ap (λ r. r >>= λ freed. ok (v ∷ freed))
          (destroy_loop-until_null ps (list_pop k l).0 (rest ∙ ap rest_of e))

  -- On every list that klist holds, list_destroy ends, with the fuel of one unit for each payload,
  -- and frees the nodes before the first NULL, the oldest first, and no other.
  pub list_destroy-until_null : (l : L) → list_destroy k l ≡ ok (until_null (contents l))
  unfolding list_destroy
  list_destroy-until_null l =
      ap (λ n. destroy_loop k n (list_pop k l)) (size-contents l)
      ∙ destroy_loop-until_null (contents l) l refl

  -- Nodes that are put into the list, one after the other.
  abbrev pub push_all : L → List V → L
  push_all l [] = l
  push_all l (v ∷ vs) = push_all (list_push k l (some v)) vs

  contents-push_all : (l : L) (vs : List V) → contents (push_all l vs) ≡ contents l ++ map some vs
  unfolding list_push
  contents-push_all l [] = sym (append-nil (contents l))
  contents-push_all l (v ∷ vs) =
      contents-push_all (list_push k l (some v)) vs
      ∙ ap (◌++ map some vs) (contents-push l (some v))
      ∙ append_assoc (contents l) (some v ∷ []) (map some vs)

  pub list_destroy-push_all : (vs : List V) → list_destroy k (push_all (list_create k) vs) ≡ ok vs
  unfolding list_create
  list_destroy-push_all vs =
      list_destroy-until_null (push_all (list_create k) vs)
      ∙ ap (λ ps. ok (until_null ps))
          (contents-push_all (list_create k) vs ∙ ap (◌++ map some vs) contents-init)
      ∙ ap ok (until_null-some vs)
