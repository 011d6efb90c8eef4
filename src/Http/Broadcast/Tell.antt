-- ===== src/Http/Broadcast/Tell.antt =====
-- The callbacks of an update's progress, and what each browser is told.
use atx_sys.Common.{
  ℕ, ◌≡◌, refl, sym, ap, ◌∙◌, List, [], ◌∷◌, map, length, take-all, Bytes, Result, ok, arith, ◌>>=◌,
}
use atx_sys.Http.Format.{IsPlain}
use atx_sys.Http.Server.{into_512}
use atx_sys.Http.Broadcast.{
  Connection, http_broadcast_json, notice_text, updater_progress, tell_all,
}
use atx_sys.Http.Broadcast.Deliver.{deliver, http_broadcast_json-deliver}
use atx_sys.Http.Broadcast.Texts.{IsTold, IsTellable, IsTellable-IsTold}
use atx_sys.Updater.Progress.{Notice}

-- The texts of the callbacks.
abbrev pub texts : List Notice → Result (List Bytes)
texts [] = ok []
texts (n ∷ ns) = do s ← notice_text n; ss ← texts ns; ok (s ∷ ss)

abbrev pub AreTellable : List Notice → Type 0
AreTellable [] = Unit
AreTellable (n ∷ ns) = IsTellable n × AreTellable ns

-- One frame for each text that is not empty, in their order.
abbrev pub deliver_all : List Bytes → Connection → Connection
deliver_all [] c = c
deliver_all (s ∷ ss) c = deliver_all ss (deliver s c)

map-deliver_all_nil : (cs : List Connection) → map (deliver_all []) cs ≡ cs
map-deliver_all_nil [] = refl
map-deliver_all_nil (c ∷ cs) = ap (c ∷◌) (map-deliver_all_nil cs)

map-deliver_all_cons :
    (s : Bytes) (ss : List Bytes) (cs : List Connection)
    → map (deliver_all ss) (map (deliver s) cs) ≡ map (deliver_all (s ∷ ss)) cs
map-deliver_all_cons s ss [] = refl
map-deliver_all_cons s ss (c ∷ cs) = ap (deliver_all (s ∷ ss) c ∷◌) (map-deliver_all_cons s ss cs)

module _ (vsnprintf : Bytes → ℕ → Result Bytes)
    (prints_plain : (s : Bytes) (l : ℕ) → IsPlain s → vsnprintf s l ≡ ok s) where
  updater_progress-deliver :
      (n : Notice) (s : Bytes) (cs : List Connection)
      → IsTold n s
      → updater_progress vsnprintf n cs ≡ ok (map (deliver s) cs)
  unfolding updater_progress
  updater_progress-deliver n s cs (text, plain, short) =
      ap (λ r. r >>= λ b. vsnprintf (into_512 b) (length b) >>= λ t. http_broadcast_json t cs) text
      ∙ ap (λ b. vsnprintf b (length s) >>= λ t. http_broadcast_json t cs) (take-all 511 s short)
      ∙ ap (λ r. r >>= λ t. http_broadcast_json t cs) (prints_plain s (length s) plain)
      ∙ http_broadcast_json-deliver s cs (omega arith)

  -- With a vsnprintf that prints a plain text as it is, over any notices whose statuses and sources
  -- are in their enumerations and whose infos are plain and have at most 480 bytes, each callback
  -- prints a text, and each websocket connection gets exactly these texts, one frame for each that
  -- is not empty, in order; a connection that is no websocket gets nothing.
  pub tell_all-deliver_all :
      (ns : List Notice) (cs : List Connection)
      → AreTellable ns
      → (ss : List Bytes) × (texts ns ≡ ok ss)
        × (tell_all vsnprintf ns cs ≡ ok (map (deliver_all ss) cs))
  unfolding tell_all
  tell_all-deliver_all [] cs u = ([], refl, ap ok (sym (map-deliver_all_nil cs)))
  tell_all-deliver_all (n ∷ ns) cs (h, hs) =
      let (s, told) = IsTellable-IsTold n h in
      let (ss, printed, sent) = tell_all-deliver_all ns (map (deliver s) cs) hs in
      (
        s ∷ ss,
        ap (λ r. r >>= λ t. texts ns >>= λ ts. ok (t ∷ ts)) told.0
            ∙ ap (λ r. r >>= λ ts. ok (s ∷ ts)) printed,
        ap (λ r. r >>= tell_all vsnprintf ns) (updater_progress-deliver n s cs told)
            ∙ sent
            ∙ ap ok (map-deliver_all_cons s ss cs),
      )
