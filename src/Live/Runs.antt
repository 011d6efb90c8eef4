-- ===== src/Live/Runs.antt =====
-- The successful runs of the loop as a relation.
use mathlib.Core.Path.{subst}
use atx_sys.Common.{
  ℕ, zero, suc, Bool, true, false, not, ◌&&◌, ◌≡◌, refl, List, [], ◌∷◌, ◌++◌, if◌then◌else◌, Result,
  ok, fault, ◌>>=◌, Bool-cases, inl, inr,
}
use atx_sys.Http.Routes.{RouteMap}
use atx_sys.Http.Server.{Handler}
use atx_sys.Live.{
  Incoming, Output, Host, Device, Turn, after_signals, take_incoming, take_all, follow_update, poll,
  live_loop,
}

module _ (ops : RouteMap Handler) (h : Host) where
  open ops use {Map}

  -- The requests and events of a poll, one after the other.
  pub data Handed : List Incoming → Device Map → Device Map → List Output → Type 0 where
    none_left : {d : Device Map} → Handed [] d d []
    handed :
        {i : Incoming} {is : List Incoming} {d d' end : Device Map} {o rest : List Output}
        → take_incoming ops h i d ≡ ok (d', o)
        → Handed is d' end rest
        → Handed (i ∷ is) d end (o ++ rest)

  -- The test of the loop.
  abbrev pub goes_on : Turn → Bool → Device Map → Bool
  goes_on t running d = after_signals t.signals running && not d.http.shutdown

  -- What the poll does behind its requests.
  abbrev pub watch : Turn → Device Map → Result (Device Map)
  watch t d = if h.outside.valid then follow_update ops h t.wire d else ok d

  pub data Ran : List Turn → Bool → Device Map → ℕ → Device Map → List Output → Type 0 where
    over : {running : Bool} {d : Device Map} → Ran [] running d zero d []
    stopped :
        {t : Turn} {ts : List Turn} {running : Bool} {d : Device Map}
        → goes_on t running d ≡ false
        → Ran (t ∷ ts) running d zero d []
    turned :
        {t : Turn} {ts : List Turn} {running : Bool} {n : ℕ} {d d' d'' end : Device Map}
        {o rest : List Output}
        → goes_on t running d ≡ true
        → Handed t.incoming d d' o
        → watch t d' ≡ ok d''
        → Ran ts (after_signals t.signals running) d'' n end rest
        → Ran (t ∷ ts) running d (suc n) end (o ++ rest)

  -- A result is what the relation says, where there is one.
  abbrev AllHanded : List Incoming → Device Map → Result (Device Map × List Output) → Type 0
  AllHanded is d (ok (end, outs)) = Handed is d end outs
  AllHanded is d (fault e) = Unit

  handed-then :
      (i : Incoming) (is : List Incoming) (d d' : Device Map) (o : List Output)
      (r : Result (Device Map × List Output))
      → take_incoming ops h i d ≡ ok (d', o)
      → AllHanded is d' r
      → AllHanded (i ∷ is) d (r >>= λ (end, rest). ok (end, o ++ rest))
  handed-then i is d d' o (ok (end, rest)) e later = handed e later
  handed-then i is d d' o (fault f) e later = tt

  handed-first :
      (i : Incoming) (is : List Incoming) (d : Device Map) (r : Result (Device Map × List Output))
      → take_incoming ops h i d ≡ r
      → ((x : Device Map) → AllHanded is x (take_all ops h is x))
      → AllHanded
          (i ∷ is)
          d
          (r >>= λ (d', o). take_all ops h is d' >>= λ (end, rest). ok (end, o ++ rest))
  handed-first i is d (fault f) e later = tt
  handed-first i is d (ok (d', o)) e later =
      handed-then i is d d' o (take_all ops h is d') e (later d')

  take_all-Handed : (is : List Incoming) (d : Device Map) → AllHanded is d (take_all ops h is d)
  unfolding take_all
  take_all-Handed [] d = none_left
  take_all-Handed (i ∷ is) d =
      handed-first i is d (take_incoming ops h i d) refl (take_all-Handed is)

  abbrev RanTo : List Turn → Bool → Device Map → Result (ℕ × Device Map × List Output) → Type 0
  RanTo ts running d (ok (n, end, outs)) = Ran ts running d n end outs
  RanTo ts running d (fault e) = Unit

  -- A poll that was made: its requests, and then the update.
  abbrev Polled : Turn → Device Map → Result (Device Map × List Output) → Type 0
  Polled t d (ok (d'', o)) = (d' : Device Map) × Handed t.incoming d d' o × (watch t d' ≡ ok d'')
  Polled t d (fault e) = Unit

  watched :
      (t : Turn) (d d' : Device Map) (o : List Output) (r : Result (Device Map))
      → Handed t.incoming d d' o
      → watch t d' ≡ r
      → Polled t d (r >>= λ d''. ok (d'', o))
  watched t d d' o (ok d'') taken e = (d', taken, e)
  watched t d d' o (fault f) taken e = tt

  Polled-first :
      (t : Turn) (d : Device Map) (r : Result (Device Map × List Output))
      → AllHanded t.incoming d r
      → Polled t d (r >>= λ (d', o). watch t d' >>= λ d''. ok (d'', o))
  Polled-first t d (ok (d', o)) taken = watched t d d' o (watch t d') taken refl
  Polled-first t d (fault f) taken = tt

  poll-Polled : (t : Turn) (d : Device Map) → Polled t d (poll ops h t.incoming t.wire d)
  unfolding poll
  poll-Polled t d = Polled-first t d (take_all ops h t.incoming d) (take_all-Handed t.incoming d)

  -- A poll that was made, by its parts.
  pub poll_parts :
      (t : Turn) (d d'' : Device Map) (o : List Output)
      → poll ops h t.incoming t.wire d ≡ ok (d'', o)
      → (d' : Device Map) × Handed t.incoming d d' o × (watch t d' ≡ ok d'')
  poll_parts t d d'' o e = subst (Polled t d) e (poll-Polled t d)

  turned-then :
      (t : Turn) (ts : List Turn) (running : Bool) (d d'' : Device Map) (o : List Output)
      (r : Result (ℕ × Device Map × List Output))
      → goes_on t running d ≡ true
      → Polled t d (ok (d'', o))
      → RanTo ts (after_signals t.signals running) d'' r
      → RanTo (t ∷ ts) running d (r >>= λ (n, end, rest). ok (suc n, end, o ++ rest))
  turned-then t ts running d d'' o (ok (n, end, rest)) on (d', taken, seen) later =
      turned on taken seen later
  turned-then t ts running d d'' o (fault f) on polled later = tt

  turned-first :
      (t : Turn) (ts : List Turn) (running : Bool) (d : Device Map)
      (r : Result (Device Map × List Output))
      → goes_on t running d ≡ true
      → Polled t d r
      → ((x : Device Map)
          → RanTo ts
              (after_signals t.signals running)
              x
              (live_loop ops h ts (after_signals t.signals running) x))
      → RanTo (t ∷ ts) running d (
          r >>= λ (d', o).
          live_loop ops h ts (after_signals t.signals running) d' >>= λ (n, end, rest).
          ok (suc n, end, o ++ rest))
  turned-first t ts running d (ok (d'', o)) on polled later =
      turned-then t ts running d d'' o (live_loop ops h ts (after_signals t.signals running) d'') on
        polled (later d'')
  turned-first t ts running d (fault f) on polled later = tt

  live_loop-RanTo :
      (ts : List Turn) (running : Bool) (d : Device Map)
      → RanTo ts running d (live_loop ops h ts running d)
  unfolding live_loop
  live_loop-RanTo [] running d = over
  live_loop-RanTo (t ∷ ts) running d = elim (Bool-cases (goes_on t running d)) [
    | inr off ↦ rw off (stopped off)
    | inl on ↦ rw on (
        turned-first t ts running d (poll ops h t.incoming t.wire d) on (poll-Polled t d)
          (live_loop-RanTo ts (after_signals t.signals running)))
  ]

  -- A run that does not fault is a run of the relation.
  pub live_loop-Ran :
      (ts : List Turn) (running : Bool) (d end : Device Map) (n : ℕ) (outs : List Output)
      → live_loop ops h ts running d ≡ ok (n, end, outs)
      → Ran ts running d n end outs
  live_loop-Ran ts running d end n outs e =
      subst (RanTo ts running d) e (live_loop-RanTo ts running d)
