-- ===== src/Program/Options.antt =====
-- What a command line sets.
use atx_sys.Common.{
  ℕ, ◌≡◌, refl, ap, ◌∙◌, Bool, true, false, List, [], ◌∷◌, ◌++◌, Option, Bytes, ◌==◌, ◌||◌,
  if◌then◌else◌, pos, negsuc, arith, ◌⊎◌, inl, inr,
}
use atx_sys.System.{Config}
use atx_sys.Program.{Opt, settings, exits, take_opt, go_on, args_parse}

-- One of -p, -e, -u, -d, -l and -w.
abbrev pub is_setting : ℕ → Bool
is_setting opt =
    opt == b'p' || (opt == b'e' || (opt == b'u' || (opt == b'd' || (opt == b'l' || opt == b'w'))))

abbrev pub AreSettings : List Opt → Type 0
AreSettings [] = Unit
AreSettings ((opt, arg) ∷ opts) = (is_setting opt ≡ true) × AreSettings opts

-- What the last such option has behind it, or else the value from before.
abbrev pub last_arg : ℕ → List Opt → Option Bytes → Option Bytes
last_arg o [] value = value
last_arg o ((opt, arg) ∷ opts) value = last_arg o opts (if opt == o then arg else value)

abbrev pub has_opt : ℕ → List Opt → Bool
has_opt o [] = false
has_opt o ((opt, arg) ∷ opts) = opt == o || has_opt o opts

-- The settings that a command line makes of those from before it.
abbrev pub set_by : List Opt → Config → Config
set_by opts c = record {
  log = last_arg b'l' opts c.log;
  env = last_arg b'e' opts c.env;
  usr = last_arg b'u' opts c.usr;
  port = last_arg b'p' opts c.port;
  www = last_arg b'w' opts c.www;
  daemon = has_opt b'd' opts || c.daemon;
}

-- One option.
abbrev after : ℕ → Option Bytes → Config → Config
after opt arg c = record {
  log = if opt == b'l' then arg else c.log;
  env = if opt == b'e' then arg else c.env;
  usr = if opt == b'u' then arg else c.usr;
  port = if opt == b'p' then arg else c.port;
  www = if opt == b'w' then arg else c.www;
  daemon = opt == b'd' || c.daemon;
}

setting_cases :
    (opt : ℕ)
    → is_setting opt ≡ true
    → (opt ≡ b'p') ⊎ (opt ≡ b'e') ⊎ (opt ≡ b'u') ⊎ (opt ≡ b'd') ⊎ (opt ≡ b'l') ⊎ (opt ≡ b'w')
setting_cases opt h = ground arith

take_opt-after :
    (opt : ℕ) (arg : Option Bytes) (c : Config)
    → is_setting opt ≡ true
    → take_opt opt arg c ≡ settings (after opt arg c)
unfolding take_opt
take_opt-after opt arg c h = elim (setting_cases opt h) [
  | inl p ↦ rw p
  | inr (inl e) ↦ rw e
  | inr (inr (inl u)) ↦ rw u
  | inr (inr (inr (inl d))) ↦ rw d
  | inr (inr (inr (inr (inl l)))) ↦ rw l
  | inr (inr (inr (inr (inr w)))) ↦ rw w
]

or-swap : (a b c : Bool) → (b || (a || c)) ≡ ((a || b) || c)
or-swap a b c = ground arith

set_by-after :
    (opt : ℕ) (arg : Option Bytes) (opts : List Opt) (c : Config)
    → set_by opts (after opt arg c) ≡ set_by ((opt, arg) ∷ opts) c
set_by-after opt arg opts c =
    ap (λ d. record (set_by opts (after opt arg c)) { daemon = d })
      (or-swap (opt == b'd') (has_opt b'd' opts) c.daemon)

-- A command line of -p, -e, -u, -d, -l and -w alone, in any order and number, sets each of the five
-- texts to what stands behind its last option, leaves those without an option as they were, and
-- sets the daemon if there is a -d.
pub args_parse-set_by :
    (opts : List Opt) (c : Config) → AreSettings opts → args_parse opts c ≡ settings (set_by opts c)
unfolding args_parse
args_parse-set_by [] c h = refl
args_parse-set_by ((opt, arg) ∷ opts) c (h, hs) =
    ap (λ r. go_on r (args_parse opts)) (take_opt-after opt arg c h)
    ∙ args_parse-set_by opts (after opt arg c) hs
    ∙ ap settings (set_by-after opt arg opts c)

take_opt-exits :
    (opt : ℕ) (arg : Option Bytes) (c : Config)
    → is_setting opt ≡ false
    → take_opt opt arg c ≡ exits (if opt == b'?' || opt == b'h' then pos 0 else negsuc 0)
unfolding take_opt
take_opt-exits opt arg c h = ground arith

pub args_parse-exits :
    (before : List Opt) (opt : ℕ) (arg : Option Bytes) (behind : List Opt) (c : Config)
    → AreSettings before
    → is_setting opt ≡ false
    → args_parse (before ++ (opt, arg) ∷ behind) c
      ≡ exits (if opt == b'?' || opt == b'h' then pos 0 else negsuc 0)
unfolding args_parse
args_parse-exits [] opt arg behind c hs h =
    ap (λ r. go_on r (args_parse behind)) (take_opt-exits opt arg c h)
args_parse-exits ((o, a) ∷ before) opt arg behind c (k, hs) h =
    ap (λ r. go_on r (args_parse (before ++ (opt, arg) ∷ behind))) (take_opt-after o a c k)
    ∙ args_parse-exits before opt arg behind (after o a c) hs h
