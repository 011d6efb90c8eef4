-- ===== src/Json/Ends.antt =====
-- `json_get_member` and `json_delve` end on every token array and every guide, and a pointer that
-- they return lies in the array; what they do at a key that has no value.
use atx_sys.Common.{
  Result, ok, fault, out_of_fuel, bad_read, ◌>>=◌, ℕ, zero, suc, ◌≤◌, ◌<◌, ◌≡◌, ◌≢◌, ◌++◌, ◌∷◌, [],
  arith, length, Bytes, IsText, Option, none, some, inl, inr, Bool-cases, ltb, ◌==◌, false,
  append_assoc, take, drop,
}
use atx_sys.Json.{
  Token, Tokens, read, json_next, json_tok_streq, find_member, json_get_member, or_null, next_fuel,
  strcspn_dot, delve_fuel, delve_step, json_delve, object, string, is_object,
}
use atx_sys.Json.Layout.{Members, no_members, member, count_members, layout_members, children}
use atx_sys.Json.Next.{Shortens, json_next-Shortens, json_next-layout}
use atx_sys.Json.Tree.{reads, member_named}
use atx_sys.Json.Delve.{json_tok_streq-reads}

-- The walk ended, and a pointer that it returned has no more than n tokens behind it.
abbrev pub EndsWithin : ℕ → Result (Option Tokens) → Type 0
EndsWithin n (ok none) = Unit {0}
EndsWithin n (ok (some t)) = length t ≤ n
EndsWithin n (fault e) = e ≢ out_of_fuel

EndsWithin-mono : (m n : ℕ) (r : Result (Option Tokens)) → m ≤ n → EndsWithin m r → EndsWithin n r
EndsWithin-mono m n (ok none) le h = tt
EndsWithin-mono m n (ok (some t)) le h = omega arith
EndsWithin-mono m n (fault e) le h = h

bind-EndsWithin :
    (k : Tokens → Result (Option Tokens)) (m n : ℕ) (r : Result Tokens)
    → Shortens m r
    → ((t : Tokens) → length t < m → EndsWithin n (k t))
    → EndsWithin n (r >>= k)
bind-EndsWithin k m n (ok t) s h = h t s
bind-EndsWithin k m n (fault e) s h = s

find_member-EndsWithin :
    (buffer label : Bytes) (n : ℕ) (t : Tokens)
    → EndsWithin (length t) (find_member buffer label n t)
unfolding find_member read
find_member-EndsWithin buffer label zero t = tt
find_member-EndsWithin buffer label (suc n) [] = λ e. cc
find_member-EndsWithin buffer label (suc n) (k ∷ t) =
    elim (Bool-cases (json_tok_streq buffer k label)) [
      | inl same ↦ rw same (omega arith)
      | inr other ↦ rw other (
          bind-EndsWithin (find_member buffer label n) (length t) (suc (length t)) (json_next t)
            (json_next-Shortens t)
            λ u lt.
              EndsWithin-mono (length u) _ _ (omega arith)
                (find_member-EndsWithin buffer label n u))
    ]

pub json_get_member-EndsWithin :
    (buffer label : Bytes) (t : Tokens) → EndsWithin (length t) (json_get_member buffer t label)
unfolding json_get_member read
json_get_member-EndsWithin buffer label [] = λ e. cc
json_get_member-EndsWithin buffer label (k ∷ t) = elim (Bool-cases (is_object k.type)) [
  | inl is ↦ rw is (
      EndsWithin-mono (length t) _ (find_member buffer label k.size t) (omega arith)
        (find_member-EndsWithin buffer label k.size t))
  | inr isnt ↦ rw isnt tt
]

delve_step-EndsWithin :
    (buf : Bytes) (tok : Tokens) (c : ℕ) (key : Bytes)
    → EndsWithin (length tok) (delve_step buf tok c key)
unfolding delve_step read
delve_step-EndsWithin buf [] c key = ground arith
delve_step-EndsWithin buf (k ∷ tok) c key = elim (Bool-cases (ltb (length key) 128)) [
  | inl short ↦ elim (Bool-cases (c == b'.')) [
    | inl dot ↦ elim (Bool-cases (is_object k.type)) [
      | inl is ↦ rw (short, dot, is) (json_get_member-EndsWithin buf key (k ∷ tok))
      | inr isnt ↦ rw (short, dot, isnt) tt
    ]
    | inr nodot ↦ rw (short, nodot) (λ e. cc)
  ]
  | inr long ↦ rw long (λ e. cc)
]

or_null-EndsWithin :
    (n : ℕ) (k : Tokens → Result (Option Tokens)) (r : Result (Option Tokens))
    → EndsWithin n r
    → ((t : Tokens) → length t ≤ n → EndsWithin n (k t))
    → EndsWithin n (r >>= or_null k)
or_null-EndsWithin n k (ok none) h next = tt
or_null-EndsWithin n k (ok (some t)) h next = next t h
or_null-EndsWithin n k (fault e) h next = h

length-drop_le : (n : ℕ) (s : Bytes) → length (drop n s) ≤ length s
length-drop_le zero s = omega arith
length-drop_le (suc n) [] = omega arith
length-drop_le (suc n) (c ∷ s) = omega (arith, length-drop_le n s)

delve_fuel-EndsWithin :
    (f : ℕ) (buf : Bytes) (tok : Tokens) (guide : Bytes)
    → length guide ≤ f
    → EndsWithin (length tok) (delve_fuel f buf tok guide)
unfolding delve_fuel
delve_fuel-EndsWithin f buf tok [] le = omega arith
delve_fuel-EndsWithin zero buf tok (c ∷ s) le = absurd (omega arith)
delve_fuel-EndsWithin (suc f) buf tok (c ∷ s) le =
    or_null-EndsWithin (length tok) _ (delve_step buf tok c (take (strcspn_dot s) s))
      (delve_step-EndsWithin buf tok c (take (strcspn_dot s) s))
      λ t lt. EndsWithin-mono (length t) _ _ lt (
        delve_fuel-EndsWithin f buf t (drop (strcspn_dot s) s)
          (omega (arith, length-drop_le (strcspn_dot s) s)))

-- On any tokens and any guide json_delve does not run out of the fuel that it gets, and a pointer
-- that it returns has no more tokens from there on than it was given.
pub json_delve-EndsWithin :
    (buf : Bytes) (tok : Tokens) (guide : Bytes)
    → EndsWithin (length tok) (json_delve buf tok guide)
unfolding json_delve
json_delve-EndsWithin buf tok guide = delve_fuel-EndsWithin _ buf tok guide (omega arith)

-- An object that ends in a key with no value, and its tokens.
abbrev pub lone_key : ℕ → ℕ → Token
lone_key s e = record { type = string; start = s; end = e; size = 0 }

find_member-lone :
    (buf label : Bytes) (ms : Members) (s e : ℕ)
    → IsText label
    → member_named buf label ms ≡ none
    → reads buf s e label ≡ false
    → find_member buf label (suc (count_members ms)) (layout_members ms ++ lone_key s e ∷ [])
      ≡ fault bad_read
unfolding find_member layout_members children read json_next next_fuel
find_member-lone buf label no_members s e h miss other =
    rw (json_tok_streq-reads buf label s e 0 h, other)
find_member-lone buf label (member s' e' v ms) s e h miss other =
    elim (Bool-cases (reads buf s' e' label)) [
      | inl here ↦ cc (rw here at miss)
      | inr there ↦
          rw
            (
              json_tok_streq-reads buf label s' e' 1 h,
              there,
              append_assoc,
              json_next-layout v (layout_members ms ++ lone_key s e ∷ []),
            )
            (find_member-lone buf label ms s e h (rw there at miss) other)
    ]

-- Looking for a label without a NUL in an object that ends in a key without a value, behind which
-- no token was written, reads outside of the tokens, when neither the members before nor that key
-- have the label.
pub json_get_member-lone_key :
    (buf label : Bytes) (ms : Members) (start end s e : ℕ)
    → IsText label
    → member_named buf label ms ≡ none
    → reads buf s e label ≡ false
    → json_get_member buf
        (record { type = object; start = start; end = end; size = suc (count_members ms) }
          ∷ (layout_members ms ++ lone_key s e ∷ []))
        label
      ≡ fault bad_read
unfolding json_get_member read
json_get_member-lone_key buf label ms start end s e h miss other =
    find_member-lone buf label ms s e h miss other
