-- ===== src/System/Boot.antt =====
-- The first start and the next one.
use atx_sys.Common.{
  IsText, ◌>>=◌, List, [], ◌∷◌, Option-cases, ℕ, suc, ◌≡◌, refl, ◌<◌, Bool, true, false, Option,
  none, some, Bytes, codes, length, take, take-all, ℤ, pos, negsuc, Result, ok, fault, bad_read,
  ◌++◌, append-nil, arith, sym, ◌∙◌, ap, lt→ltb, le→ltb, ◌≤◌, ◌⊎◌, inl, inr, Bool-cases, ◌==◌,
  ==_iff, if◌then◌else◌,
}
use atx_sys.Json.{Jsmn, parsed}
use atx_sys.Json.Layout.{layout}
use atx_sys.Network.{
  NetworkConfig, print_network_config, print_network_interface, header, common, dhcp_part,
  device_lan,
}
use atx_sys.Network.Method.{Spans, print_network_interface_stanza}
use atx_sys.Network.Printed.{config_node}
use atx_sys.Network.RoundTrip.{SpansTexts, parse_network_config-SpansTexts}
use atx_sys.System.{
  UserFile, size, enoent, read_user_config, read_file, parse_read, write_interfaces, defaults,
  value_of, is_set,
}

abbrev pub default_text : Bytes
default_text = print_network_config defaults

Spans-value : {s : Bytes} → IsText s → Spans (value_of s) s
Spans-value {s} t = record { text = t; span = refl; post = []; reads = sym (append-nil s) }

SpansTexts-defaults :
    SpansTexts defaults
      (codes "DHCP")
      (codes "LinQM5")
      (codes "192.168.168.168")
      (codes "255.255.255.0")
      (codes "192.168.168.1")
SpansTexts-defaults = record {
  of_meth = Spans-value (omega arith);
  of_hn = Spans-value (omega arith);
  of_ip = Spans-value (omega arith);
  of_sn = Spans-value (omega arith);
  of_gw = Spans-value (omega arith);
}

-- Settings with the same texts make the same interfaces file.
print_network_interface-SpansTexts :
    {m h i s g : Bytes} {c d : NetworkConfig}
    → SpansTexts c m h i s g
    → SpansTexts d m h i s g
    → print_network_interface c ≡ print_network_interface d
print_network_interface-SpansTexts {m} {h} {i} {s} {g} {c} {d} a b =
    go (print_network_interface_stanza c m i s g h a.of_meth a.of_ip a.of_sn a.of_gw a.of_hn)
      (print_network_interface_stanza d m i s g h b.of_meth b.of_ip b.of_sn b.of_gw b.of_hn)
  where
    go :
        {A : Type 0} {x y u v : Bytes}
        → (A × (x ≡ u)) ⊎ ((¬ A) × (x ≡ v))
        → (A × (y ≡ u)) ⊎ ((¬ A) × (y ≡ v))
        → x ≡ y
    go (inl (k, e)) (inl (k', e')) = e ∙ sym e'
    go (inl (k, e)) (inr (n', e')) = absurd (n' k)
    go (inr (n, e)) (inl (k', e')) = absurd (n k')
    go (inr (n, e)) (inr (n', e')) = e ∙ sym e'

-- The tokens of the text that the first start writes.
abbrev pub DefaultTokens : Jsmn → Type 0
DefaultTokens jsmn =
    (n : ℕ) × (jsmn default_text (length default_text) 128
      ≡ parsed (suc n) (layout (config_node 4 6 15 13 13)))

-- The tokens of the text that settings are printed as.
abbrev pub PrintedTokens : Jsmn → NetworkConfig → Bytes → Bytes → Bytes → Bytes → Bytes → Type 0
PrintedTokens jsmn c m h i s g =
    (n : ℕ) × (jsmn (print_network_config c) (length (print_network_config c)) 128
      ≡ parsed (suc n)
          (layout (config_node (length m) (length h) (length i) (length s) (length g))))

read_file-print :
    (jsmn : Jsmn) (c before : NetworkConfig) (m h i s g : Bytes)
    → SpansTexts c m h i s g
    → PrintedTokens jsmn c m h i s g
    → let text = print_network_config c in
      (after : NetworkConfig) × (read_file jsmn (length text) text before ≡ ok (pos 0, after))
      × (print_network_interface after ≡ print_network_interface c)
unfolding read_file parse_read
read_file-print jsmn c before m h i s g given (n, tokens) =
    let text : Bytes = print_network_config c in
    let (after, e, t) = parse_network_config-SpansTexts jsmn n c before m h i s g given tokens in
    let whole : take (length text) text ≡ text = take-all (length text) text (omega arith) in
    let same : (length text == length text) ≡ true = (==_iff _ _).1 refl in
    (after, rw (whole, same, e), print_network_interface-SpansTexts t given)

-- A start that finds the file of settings as they are printed reads them back.
pub read_user_config-print :
    (jsmn : Jsmn) (usr : Option Bytes) (f : UserFile) (c before : NetworkConfig) (m h i s g : Bytes)
    → SpansTexts c m h i s g
    → PrintedTokens jsmn c m h i s g
    → is_set usr ≡ true
    → length (print_network_config c) < 2048
    → f.stat ≡ size (length (print_network_config c))
    → f.content ≡ some (print_network_config c)
    → (after : NetworkConfig) × (read_user_config jsmn usr f before ≡ ok (pos 0, after, none))
      × (print_network_interface after ≡ print_network_interface c)
unfolding read_user_config
read_user_config-print jsmn usr f c before m h i s g given tokens set short there content =
    let (after, e, same) = read_file-print jsmn c before m h i s g given tokens in
    (after, rw (set, there, content, lt→ltb _ _ short, e), same)

default_text_short : length default_text < 2048
unfolding print_network_config atx_sys.Network.json_format atx_sys.Common.print_at_most
default_text_short = omega arith

-- With a path set, the first start, without a settings' file, takes the defaults and writes them to
-- a new file, if it can be made, printed and closed, and the next start, which finds that file, returns 0 with settings that make the same
-- interfaces file. The tokenizer gives the tokens of the defaults' document.
pub read_user_config_again :
    (jsmn : Jsmn) (usr : Option Bytes) (first next : UserFile) (c d : NetworkConfig)
    → DefaultTokens jsmn
    → is_set usr ≡ true
    → first.stat ≡ enoent
    → first.creates ≡ true
    → first.prints ≡ true
    → first.closes ≡ true
    → next.stat ≡ size (length default_text)
    → next.content ≡ some default_text
    → (read_user_config jsmn usr first c ≡ ok (pos 0, defaults, some default_text))
      × ((after : NetworkConfig) × (read_user_config jsmn usr next d ≡ ok (pos 0, after, none))
          × (print_network_interface after ≡ print_network_interface defaults))
unfolding read_user_config
read_user_config_again jsmn usr first next c d tokens set missing creates prints closes there
      content =
    (
      rw (set, missing, creates, prints, closes),
      read_user_config-print jsmn usr next defaults d _ _ _ _ _ SpansTexts-defaults tokens set
          default_text_short there content,
    )

-- With a path set, a settings' file of 2048 bytes or more, or one that does not open, is not read,
-- and the interfaces file, if it opens, is written from the settings as they were before the call.
pub read_user_config_unread :
    (jsmn : Jsmn) (usr : Option Bytes) (f : UserFile) (n : ℕ) (c : NetworkConfig)
    → is_set usr ≡ true
    → f.stat ≡ size n
    → (2048 ≤ n) ⊎ (f.content ≡ none)
    → (read_user_config jsmn usr f c >>= λ r. ok (write_interfaces true r))
      ≡ ok (some (print_network_interface c))
unfolding read_user_config write_interfaces
read_user_config_unread jsmn usr f n c set there (inr closed) = rw (set, there, closed)
read_user_config_unread jsmn usr f n c set there (inl long) = elim (Option-cases f.content) [
  | inl closed ↦ rw (set, there, closed)
  | inr (t, opened) ↦ rw (set, there, opened, le→ltb _ _ long)
]
