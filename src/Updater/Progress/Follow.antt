-- ===== src/Updater/Progress/Follow.antt =====
-- What the callbacks are told over a sequence of messages.
use atx_sys.Common.{
  ℕ, ◌≡◌, refl, ap, true, List, [], ◌∷◌, ◌++◌, map, ◌==◌, ◌&&◌, if◌then◌else◌, arith, ◌⊎◌,
}
use atx_sys.Updater.Progress.{
  Callbacks, Progress, Msg, Notice, on_status, on_source, on_info, on_step, nonblocking, take_msg,
  take_info,
}

-- The messages of one connection, one after the other.
unfoldable pub follow : ℕ → Callbacks → List Msg → Progress → Progress × List Notice
follow failure cb [] u = (u, [])
follow failure cb (m ∷ ms) u =
    let (u', n) = take_msg failure cb m u in
    let (u'', ns) = follow failure cb ms u' in (u'', n ++ ns)

abbrev pub sources : List Notice → List ℕ
sources [] = []
sources (on_source s ∷ ns) = s ∷ sources ns
sources (on_status s ∷ ns) = sources ns
sources (on_info i ∷ ns) = sources ns
sources (on_step i s t p ∷ ns) = sources ns
sources (nonblocking h ∷ ns) = sources ns

abbrev pub statuses : List Notice → List ℕ
statuses [] = []
statuses (on_status s ∷ ns) = s ∷ statuses ns
statuses (on_source s ∷ ns) = statuses ns
statuses (on_info i ∷ ns) = statuses ns
statuses (on_step i s t p ∷ ns) = statuses ns
statuses (nonblocking h ∷ ns) = statuses ns

sources-append : (xs ys : List Notice) → sources (xs ++ ys) ≡ sources xs ++ sources ys
sources-append [] ys = refl
sources-append (on_source s ∷ xs) ys = ap (◌∷◌ s) (sources-append xs ys)
sources-append (on_status s ∷ xs) ys = sources-append xs ys
sources-append (on_info i ∷ xs) ys = sources-append xs ys
sources-append (on_step i s t p ∷ xs) ys = sources-append xs ys
sources-append (nonblocking h ∷ xs) ys = sources-append xs ys

statuses-append : (xs ys : List Notice) → statuses (xs ++ ys) ≡ statuses xs ++ statuses ys
statuses-append [] ys = refl
statuses-append (on_status s ∷ xs) ys = ap (◌∷◌ s) (statuses-append xs ys)
statuses-append (on_source s ∷ xs) ys = statuses-append xs ys
statuses-append (on_info i ∷ xs) ys = statuses-append xs ys
statuses-append (on_step i s t p ∷ xs) ys = statuses-append xs ys
statuses-append (nonblocking h ∷ xs) ys = statuses-append xs ys

-- The values that differ from the one before.
abbrev pub changes : ℕ → List ℕ → List ℕ
changes a [] = []
changes a (b ∷ bs) = (if b == a then [] else b ∷ []) ++ changes b bs

-- The same, where one value is always told.
abbrev pub changes_or : ℕ → ℕ → List ℕ → List ℕ
changes_or always a [] = []
changes_or always a (b ∷ bs) =
    (if b == a then (if b == always then b ∷ [] else []) else b ∷ []) ++ changes_or always b bs

take_msg-source :
    (failure : ℕ) (cb : Callbacks) (m : Msg) (u : Progress)
    → cb.source ≡ true
    → (sources (take_msg failure cb m u).1 ≡ (if m.source == u.source then [] else m.source ∷ []))
      × ((take_msg failure cb m u).0.source ≡ m.source)
unfolding take_msg
take_msg-source failure cb m u h = ground arith

take_msg-status :
    (failure : ℕ) (cb : Callbacks) (m : Msg) (u : Progress)
    → cb.status ≡ true
    → (statuses (take_msg failure cb m u).1 ≡ (
        if m.status == u.status
        then (if m.status == failure then m.status ∷ [] else [])
        else m.status ∷ []))
      × ((take_msg failure cb m u).0.status ≡ m.status)
unfolding take_msg
take_msg-status failure cb m u h = ground arith

-- Over any messages of a connection the source callback, if it is set, is told exactly the sources
-- that differ from the one before, in order.
pub follow-sources :
    (failure : ℕ) (cb : Callbacks) (ms : List Msg) (u : Progress)
    → cb.source ≡ true
    → sources (follow failure cb ms u).1 ≡ changes u.source (map (λ m. m.source) ms)
unfolding follow
follow-sources failure cb [] u h = refl
follow-sources failure cb (m ∷ ms) u h =
    let (told, now) = take_msg-source failure cb m u h in
    let later = follow failure cb ms (take_msg failure cb m u).0 in
    rw (
      sources-append (take_msg failure cb m u).1 later.1,
      told,
      follow-sources failure cb ms (take_msg failure cb m u).0 h,
      now,
    )

-- Over any messages of a connection the status callback, if it is set, is told exactly the statuses
-- that differ from the one before, and each failure, in order.
pub follow-statuses :
    (failure : ℕ) (cb : Callbacks) (ms : List Msg) (u : Progress)
    → cb.status ≡ true
    → statuses (follow failure cb ms u).1 ≡ changes_or failure u.status (map (λ m. m.status) ms)
unfolding follow
follow-statuses failure cb [] u h = refl
follow-statuses failure cb (m ∷ ms) u h =
    let (told, now) = take_msg-status failure cb m u h in
    let later = follow failure cb ms (take_msg failure cb m u).0 in
    rw (
      statuses-append (take_msg failure cb m u).1 later.1,
      told,
      follow-statuses failure cb ms (take_msg failure cb m u).0 h,
      now,
    )

-- The step of the state is the message's, unless the message has none.
abbrev StepSettled : Msg → Progress → Type 0
StepSettled m u = (m.cur_step ≡ 0) ⊎ ((m.cur_step ≡ u.step) × (m.cur_percent ≡ u.percent))

take_msg-settles :
    (failure : ℕ) (cb : Callbacks) (m : Msg) (u : Progress)
    → ((take_msg failure cb m u).0.status ≡ m.status)
      × ((take_msg failure cb m u).0.source ≡ m.source)
unfolding take_msg
take_msg-settles failure cb m u = ground arith

take_msg-settles_step :
    (failure : ℕ) (cb : Callbacks) (m : Msg) (u : Progress)
    → StepSettled m (take_msg failure cb m u).0
unfolding take_msg
take_msg-settles_step failure cb m u = ground arith

take_msg_settled :
    (failure : ℕ) (cb : Callbacks) (m : Msg) (u : Progress)
    → u.status ≡ m.status
    → u.source ≡ m.source
    → StepSettled m u
    → ((take_msg failure cb m u).0 ≡ u)
      × ((take_msg failure cb m u).1
          ≡ (if m.status == failure && cb.status then on_status m.status ∷ [] else [])
            ++ take_info cb m)
unfolding take_msg
take_msg_settled failure cb m u hs hr ht = ground arith

-- A message that comes again tells only its info, and its status if that is a failure, and the
-- state stays as the first left it.
pub take_msg_again :
    (failure : ℕ) (cb : Callbacks) (m : Msg) (u : Progress)
    → let u' = (take_msg failure cb m u).0 in
      ((take_msg failure cb m u').0 ≡ u')
      × ((take_msg failure cb m u').1
          ≡ (if m.status == failure && cb.status then on_status m.status ∷ [] else [])
            ++ take_info cb m)
take_msg_again failure cb m u =
    let (told, now) = take_msg-settles failure cb m u in
    take_msg_settled failure cb m (take_msg failure cb m u).0 told now
      (take_msg-settles_step failure cb m u)
