-- ===== src/RouteNetwork/Put.antt =====
-- What a PUT does to the file, and what a GET answers afterwards.
use atx_sys.Http.{Response}
use atx_sys.Common.{
  Bool, true, false, ℕ, suc, ◌≡◌, refl, [], ◌++◌, Option, none, some, Bytes, codes, Result, ok,
  ◌>>=◌, arith, append-nil, ◌⊎◌, inl, inr, Bool-cases,
}
use atx_sys.Json.{Tokens, Jsmn, parsed, read, json_delve}
use atx_sys.Json.Layout.{Node, layout}
use atx_sys.Json.Tree.{value_at, guide_of, AreKeys}
use atx_sys.Json.Delve.{Finds, json_delve-layout}
use atx_sys.Network.{NetworkConfig, print_network_config, print_network_config_toks}
use atx_sys.Network.Parse.{path, span, settings_of}
use atx_sys.RouteNetwork.{
  Disk, Outcome, found_or, write_settings, print_pointers, parser_error, put_tokens, put,
}

abbrev pub done : Response
done = record { code = 200; body = codes "{\"error\":\"ok\"}" }

abbrev pub failure : Bytes → Response
failure message = record { code = 500; body = codes "{\"error\":\"" ++ (message ++ codes "\"}") }

-- What stands in the file and what is answered, by whether fopen, fprintf and fclose succeed.
abbrev pub outcome : Bool → Bool → Bool → Disk → Option Bytes → Bytes → Outcome
outcome false prints closes disk file text = (file, failure disk.error)
outcome true false closes disk file text = (some disk.partial, failure disk.error)
outcome true true false disk file text = (some disk.partial, done)
outcome true true true disk file text = (some text, done)

-- The settings were written, or refused.
abbrev pub Puts : Disk → Option Bytes → Option NetworkConfig → Result Outcome → Type 0
Puts disk file none r = r ≡ ok (file, failure (codes "parser error"))
Puts disk file (some c) r =
    r ≡ ok (outcome disk.opens disk.prints disk.closes disk file (print_network_config c))

found_step :
    (G : Result Outcome → Type 0) (o : Option Node) (d : Result (Option Tokens))
    (bad : Result Outcome) (k : Tokens → Result Outcome)
    → Finds o d
    → (o ≡ none → G bad)
    → ((w : Node) (post : Tokens) → o ≡ some w → G (k (layout w ++ post)))
    → G (d >>= found_or bad k)
found_step G none d bad k h lost found = rw h (lost refl)
found_step G (some w) d bad k h lost found = rw h.1 (found w h.0 refl)

module _ (b : Bytes) (v : Node) where
  abbrev At : Bytes → Option Node
  At name = value_at b v (path name)

  delved :
      (name : Bytes)
      → AreKeys (path name)
      → Finds (At name) (json_delve b (layout v) (guide_of (path name)))
  delved name h = rw append-nil at (json_delve-layout b v [] (path name) h)

  -- One missing value is enough for there to be no settings.
  settings_of-none :
      (At (codes "meth") ≡ none)
        ⊎ (At (codes "ip") ≡ none)
        ⊎ (At (codes "sn") ≡ none)
        ⊎ (At (codes "gw") ≡ none)
        ⊎ (At (codes "hn") ≡ none)
      → settings_of b v ≡ none
  unfolding settings_of
  settings_of-none h = ground arith

  settings_of-some :
      (m i s g h : Node)
      → At (codes "meth") ≡ some m
      → At (codes "ip") ≡ some i
      → At (codes "sn") ≡ some s
      → At (codes "gw") ≡ some g
      → At (codes "hn") ≡ some h
      → settings_of b v
        ≡ some
            (record { meth = span b m; ip = span b i; sn = span b s; gw = span b g; hn = span b h })
  unfolding settings_of
  settings_of-some m i s g h em ei es eg eh = rw (em, eh, ei, es, eg)

  module _ (disk : Disk) (file : Option Bytes) where
    abbrev Claim : Result Outcome → Type 0
    Claim = Puts disk file (settings_of b v)

    lost : settings_of b v ≡ none → Claim (ok (parser_error file))
    lost e = rw e

    -- All five are there.
    write-Claim :
        (m i s g h : Node) (pm pi ps pg ph : Tokens)
        → At (codes "meth") ≡ some m
        → At (codes "ip") ≡ some i
        → At (codes "sn") ≡ some s
        → At (codes "gw") ≡ some g
        → At (codes "hn") ≡ some h
        → Claim (
            write_settings disk file (
              print_pointers b
                (layout m ++ pm)
                (layout i ++ pi)
                (layout s ++ ps)
                (layout g ++ pg)
                (layout h ++ ph)))
    unfolding write_settings print_pointers read print_network_config_toks
    write-Claim m i s g h pm pi ps pg ph em ei es eg eh =
        rw (settings_of-some m i s g h em ei es eg eh) (elim (Bool-cases disk.opens) [
          | inr e ↦ rw e
          | inl e ↦ elim (Bool-cases disk.prints) [
            | inr p ↦ rw (e, p)
            | inl p ↦ elim (Bool-cases disk.closes) [ inl c ↦ rw (e, p, c) | inr c ↦ rw (e, p, c) ]
          ]
        ])

    put_tokens-Claim : Claim (put_tokens disk file b (layout v))
    unfolding put_tokens
    put_tokens-Claim =
        found_step Claim (At (codes "meth")) _ _ _ (delved (codes "meth") (omega arith))
          (λ e. lost (settings_of-none (inl e)))
          λ m pm em.
            found_step Claim (At (codes "ip")) _ _ _ (delved (codes "ip") (omega arith))
              (λ e. lost (settings_of-none (inr (inl e))))
              λ i pi ei.
                found_step Claim (At (codes "sn")) _ _ _ (delved (codes "sn") (omega arith))
                  (λ e. lost (settings_of-none (inr (inr (inl e)))))
                  λ s ps es.
                    found_step Claim (At (codes "gw")) _ _ _ (delved (codes "gw") (omega arith))
                      (λ e. lost (settings_of-none (inr (inr (inr (inl e))))))
                      λ g pg eg.
                        found_step Claim (At (codes "hn")) _ _ _ (delved (codes "hn") (omega arith))
                          (λ e. lost (settings_of-none (inr (inr (inr (inr e))))))
                          λ h ph eh. write-Claim m i s g h pm pi ps pg ph em ei es eg eh

-- Given the tokens of the body's document, a PUT of the network settings answers 500 with "parser
-- error" and keeps the file when one of the five values under "ipv4" is missing. When all are
-- there, it answers 500 with the system's message and keeps the file if fopen fails, and leaves
-- what was written if fprintf fails; it answers 200 with "ok" if fprintf succeeds, and the file
-- then holds the settings in its format, or, if fclose fails, what was written.
pub put-Puts :
    (jsmn : Jsmn) (disk : Disk) (file : Option Bytes) (l : ℕ) (b : Bytes) (n : ℕ) (v : Node)
    → jsmn b l 256 ≡ parsed (suc n) (layout v)
    → Puts disk file (settings_of b v) (put jsmn disk file l b)
unfolding put
put-Puts jsmn disk file l b n v e = rw e (put_tokens-Claim b v disk file)
