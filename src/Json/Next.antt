-- ===== src/Json/Next.antt =====
-- `json_next` ends on every token array, and steps over exactly one value of a laid out document.
use atx_sys.Common.{
  Result, ok, fault, out_of_fuel, ◌>>=◌, ℕ, zero, suc, ◌≤◌, ◌<◌, ◌≡◌, refl, ◌≢◌, ◌++◌, ◌∷◌, [],
  append_assoc, arith, length, length-append,
}
use atx_sys.Json.{Tokens, read, step_over, next_fuel, json_next}
use atx_sys.Json.Layout.{
  Node, Members, Nodes, obj, arr, str, prim, no_members, member, no_nodes, element, count_members,
  count_nodes, children, layout_members, layout_nodes, layout,
}

-- The walk ended: at a shorter rest, or by a fault other than the lack of fuel.
abbrev pub Shortens : ℕ → Result Tokens → Type 0
Shortens n (ok t) = length t < n
Shortens n (fault e) = e ≢ out_of_fuel

bind-Shortens :
    (k : Tokens → Result Tokens) (m n : ℕ) (r : Result Tokens)
    → Shortens m r
    → ((t : Tokens) → length t < m → Shortens n (k t))
    → Shortens n (r >>= k)
bind-Shortens k m n (ok t) s h = h t s
bind-Shortens k m n (fault e) s h = s

step_over-Shortens :
    (next : Tokens → Result Tokens) (m n k : ℕ) (t : Tokens)
    → ((t : Tokens) → length t < m → Shortens (length t) (next t))
    → length t < n
    → n ≤ m
    → Shortens n (step_over next k t)
unfolding step_over
step_over-Shortens next m n zero t h lt le = lt
step_over-Shortens next m n (suc k) t h lt le =
    bind-Shortens (step_over next k) (length t) n (next t) (h t (omega arith))
      (λ t' lt'. step_over-Shortens next m n k t' h (omega arith) le)

next_fuel-Shortens : (f : ℕ) (t : Tokens) → length t < f → Shortens (length t) (next_fuel f t)
unfolding next_fuel read
next_fuel-Shortens zero t h = absurd (omega arith)
next_fuel-Shortens (suc f) [] h = λ e. cc
next_fuel-Shortens (suc f) (k ∷ t) h =
    step_over-Shortens (next_fuel f) f (suc (length t)) k.size t (next_fuel-Shortens f)
      (omega arith) (omega arith)

pub json_next-Shortens : (t : Tokens) → Shortens (length t) (json_next t)
unfolding json_next
json_next-Shortens t = next_fuel-Shortens (suc (length t)) t (omega arith)

mutual
  unfolding next_fuel step_over read children

  next-layout :
      (v : Node) (f : ℕ) (post : Tokens)
      → length (layout v) ≤ f
      → next_fuel f (layout v ++ post) ≡ ok post
  next-layout v zero post h = absurd (omega arith)
  next-layout (obj s e ms) (suc f) post h = step_over-members ms f post (omega arith)
  next-layout (arr s e vs) (suc f) post h = step_over-nodes vs f post (omega arith)
  next-layout (str s e) (suc f) post h = refl
  next-layout (prim s e) (suc f) post h = refl

  step_over-members :
      (ms : Members) (f : ℕ) (post : Tokens)
      → length (layout_members ms) ≤ f
      → step_over (next_fuel f) (count_members ms) (layout_members ms ++ post) ≡ ok post
  step_over-members no_members f post h = refl
  step_over-members (member s e v ms) zero post h = absurd (omega arith)
  step_over-members (member s e v ms) (suc f) post h =
      rw
        (
          append_assoc,
          next-layout v f (layout_members ms ++ post)
              (omega (arith, length-append {0} (children v) (layout_members ms))),
        )
        (step_over-members ms (suc f) post
          (omega (arith, length-append {0} (children v) (layout_members ms))))

  step_over-nodes :
      (vs : Nodes) (f : ℕ) (post : Tokens)
      → length (layout_nodes vs) ≤ f
      → step_over (next_fuel f) (count_nodes vs) (layout_nodes vs ++ post) ≡ ok post
  step_over-nodes no_nodes f post h = refl
  step_over-nodes (element v vs) f post h =
      rw
        (
          append_assoc,
          next-layout v f (layout_nodes vs ++ post)
              (omega (arith, length-append {0} (children v) (layout_nodes vs))),
        )
        (step_over-nodes vs f post
          (omega (arith, length-append {0} (children v) (layout_nodes vs))))

-- On the tokens of any value, whatever tokens follow them, json_next returns the tokens that
-- follow, with the fuel that it gets.
pub json_next-layout : (v : Node) (post : Tokens) → json_next (layout v ++ post) ≡ ok post
unfolding json_next
json_next-layout v post = next-layout v _ post (omega (arith, length-append {0} (layout v) post))
