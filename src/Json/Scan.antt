-- ===== src/Json/Scan.antt =====
-- json_next without its recursion: one pass over the tokens that counts the values still to come.
use atx_sys.Common.{
  ℕ, zero, suc, ◌+◌, ◌≤◌, ◌<◌, ◌≡◌, refl, sym, ap, ◌∙◌, [], ◌∷◌, length, Result, ok, fault,
  bad_read, ◌>>=◌, arith,
}
use atx_sys.Json.{Token, Tokens, next_fuel, step_over, json_next}

-- What follows the next `pending` values; a value's token adds its children to the count.
unfoldable pub scan : ℕ → Tokens → Result Tokens
scan zero toks = ok toks
scan (suc pending) [] = fault bad_read
scan (suc pending) (t ∷ toks) = scan (t.size + pending) toks

-- What follows a scan is taken only at tokens that are left.
scan-bind :
    {B : Type 0} (toks : Tokens) (n : ℕ) (g h : Tokens → Result B)
    → ((rest : Tokens) → length rest ≤ length toks → g rest ≡ h rest)
    → (scan n toks >>= g) ≡ (scan n toks >>= h)
unfolding scan
scan-bind toks zero g h e = e toks (omega arith)
scan-bind [] (suc n) g h e = refl
scan-bind (t ∷ toks) (suc n) g h e =
    scan-bind toks (t.size + n) g h (λ rest le. e rest (omega arith))

scan-add : (toks : Tokens) (a n : ℕ) → scan (a + n) toks ≡ (scan a toks >>= scan n)
unfolding scan
scan-add toks zero n = let none_more : zero + n ≡ n = omega arith in ap (λ k. scan k toks) none_more
scan-add [] (suc a) n =
    let one_more : suc a + n ≡ suc (a + n) = omega arith in ap (λ k. scan k []) one_more
scan-add (t ∷ toks) (suc a) n =
    let one_more : suc a + n ≡ suc (a + n) = omega arith in
    let shifted : t.size + (a + n) ≡ t.size + a + n = omega arith in
    ap (λ k. scan k (t ∷ toks)) one_more
    ∙ ap (λ k. scan k toks) shifted
    ∙ scan-add toks (t.size + a) n

bind-ok_right : {A : Type 0} (r : Result A) → (r >>= ok) ≡ r
bind-ok_right (ok a) = refl
bind-ok_right (fault e) = refl

step_over-scan :
    (f n : ℕ) (toks : Tokens) → length toks < f → step_over (next_fuel f) n toks ≡ scan n toks
unfolding step_over next_fuel scan atx_sys.Json.read
step_over-scan f zero toks lt = refl
step_over-scan zero (suc n) toks lt = ground arith
step_over-scan (suc f) (suc n) [] lt = refl
step_over-scan (suc f) (suc n) (t ∷ toks) lt =
    ap (λ r. r >>= step_over (next_fuel (suc f)) n) (step_over-scan f t.size toks (omega arith))
    ∙ scan-bind toks t.size (step_over (next_fuel (suc f)) n) (scan n)
        (λ rest le. step_over-scan (suc f) n rest (omega arith))
    ∙ sym (scan-add toks t.size n)

-- On any tokens, those that no document has included, json_next with the fuel that it gets is one
-- pass over the tokens that counts the values still to come, from one on, and reads outside of the
-- tokens exactly where that pass does.
pub json_next-scan : (tok : Tokens) → json_next tok ≡ scan 1 tok
unfolding json_next step_over
json_next-scan tok =
    sym (bind-ok_right (next_fuel (suc (length tok)) tok))
    ∙ step_over-scan (suc (length tok)) 1 tok (omega arith)
