-- ===== src/Examples/Fifo.antt =====
-- A list of two nodes with a NULL behind them.
use atx_sys.Common.{◌≡◌, refl, ℕ, List, [], ◌∷◌, ◌++◌, length, Option, none, some, ok}
use atx_sys.Containers.Fifo.{Klist, uncons, held, list_destroy}
use atx_sys.Containers.Fifo.Destroy.{until_null, first_of, list_destroy-until_null}

shift-uncons : (l : List (Option ℕ)) → held (λ x. x) (uncons l) ≡ uncons l
shift-uncons [] = refl
shift-uncons (p ∷ ps) = refl

abbrev listed : Klist ℕ
listed = record {
  L = List (Option ℕ);
  init = [];
  push = λ l p. l ++ p ∷ [];
  shift = uncons;
  size = length;
  head_data = first_of;
  contents = λ l. l;
  contents-init = refl;
  contents-push = λ l p. refl;
  contents-shift = shift-uncons;
  size-contents = λ l. refl;
}

abbrev nodes : List (Option ℕ)
nodes = some 1 ∷ some 2 ∷ none ∷ some 3 ∷ []

list_destroy-until_null_example : list_destroy listed nodes ≡ ok (until_null nodes)
list_destroy-until_null_example = list_destroy-until_null listed nodes
