-- ===== src/Containers/Fifo.antt =====
-- containers.h: the list that LIST_INIT generates over klib's klist.
--
-- klist is a parameter: its operations, and the payloads that its documentation says it holds, the
-- oldest first. A payload is a pointer to a node, which may be NULL.
pub mod Destroy
use atx_sys.Common.{
  sym, ℕ, zero, suc, ◌%◌, ◌^◌, ◌<◌, ◌≡◌, refl, ap, ◌∙◌, List, [], ◌∷◌, ◌++◌, length, Option, none,
  some, Result, ok, fault, out_of_fuel, ◌>>=◌, arith,
}

-- The first of them and the others.
abbrev pub uncons : {A : Type 0} → List A → Option (List A × A)
uncons [] = none
uncons (a ∷ rest) = some (rest, a)

abbrev pub held : {L A : Type 0} → (L → List A) → Option (L × A) → Option (List A × A)
held contents none = none
held contents (some (l, a)) = some (contents l, a)

pub record Klist (V : Type 0) : Type 1 where
  pub L : Type 0
  pub init : L
  -- kl_pushp, and the payload that is put where it points.
  pub push : L → Option V → L
  -- kl_shift: the list without its oldest payload, and that payload, or none if it is empty.
  pub shift : L → Option (L × Option V)
  pub size : L → ℕ
  -- The payload at the head, also of an empty list.
  pub head_data : L → Option V
  pub contents : L → List (Option V)
  pub contents-init : contents init ≡ []
  pub contents-push : (l : L) (p : Option V) → contents (push l p) ≡ contents l ++ p ∷ []
  pub contents-shift : (l : L) → held contents (shift l) ≡ uncons (contents l)
  pub size-contents : (l : L) → size l ≡ length (contents l)

module _ {V : Type 0} (k : Klist V) where
  open k use {L, init, push, shift, size, head_data}

  unfoldable pub list_create : L
  list_create = init

  unfoldable pub list_front : L → Option V
  list_front l = head_data l

  unfoldable pub list_push : L → Option V → L
  list_push l r = push l r

  abbrev pub popped : L → Option (L × Option V) → L × Option V
  popped l none = (l, none)
  popped l (some p) = p

  -- NULL on an empty list.
  unfoldable pub list_pop : L → L × Option V
  list_pop l = popped l (shift l)

  unfoldable pub list_size : L → ℕ
  list_size l = size l % 2 ^ 32

  -- The nodes that the loop frees, in order, from the one that was popped last.
  unfoldable pub destroy_loop : ℕ → L × Option V → Result (List V)
  unfolding list_pop
  destroy_loop fuel (l, none) = ok []
  destroy_loop zero (l, some v) = fault out_of_fuel
  destroy_loop (suc fuel) (l, some v) = do freed ← destroy_loop fuel (list_pop l); ok (v ∷ freed)

  unfoldable pub list_destroy : L → Result (List V)
  unfolding destroy_loop
  list_destroy list = destroy_loop (size list) (list_pop list)
