-- ===== src/Network/RoundTrip.antt =====
-- What `print_network_config` writes reads back.
use atx_sys.Common.{ok, ℕ, suc, ◌≡◌, Bytes, length, pos}
use atx_sys.Json.{Jsmn, parsed}
use atx_sys.Json.Layout.{layout}
use atx_sys.Network.{NetworkConfig, json_format, print_network_config, parse_network_config, shown}
use atx_sys.Network.Method.{Spans, shown-Spans}
use atx_sys.Network.Parse.{parse_network_config-layout}
use atx_sys.Network.Printed.{
  config_node, text, whole, At-m, At-h, At-i, At-s, At-g, settings_of-format, Spans-At,
}

-- Settings whose values span these texts.
pub record SpansTexts (c : NetworkConfig) (m h i s g : Bytes) : Type 0 where
  pub of_meth : Spans c.meth m
  pub of_hn : Spans c.hn h
  pub of_ip : Spans c.ip i
  pub of_sn : Spans c.sn s
  pub of_gw : Spans c.gw g

pub parse_network_config-SpansTexts :
    (jsmn : Jsmn) (n : ℕ) (c before : NetworkConfig) (m h i s g : Bytes)
    → SpansTexts c m h i s g
    → jsmn (print_network_config c) (length (print_network_config c)) 128
      ≡ parsed (suc n) (layout (config_node (length m) (length h) (length i) (length s) (length g)))
    → (after : NetworkConfig) × (parse_network_config jsmn
          (print_network_config c)
          (length (print_network_config c))
          before
        ≡ ok (pos 0, after))
      × SpansTexts after m h i s g
parse_network_config-SpansTexts jsmn n c before m h i s g t tokens =
    let printed : print_network_config c ≡ json_format m h i s g =
      unfold print_network_config in
      rw (
        shown-Spans t.of_meth,
        shown-Spans t.of_hn,
        shown-Spans t.of_ip,
        shown-Spans t.of_sn,
        shown-Spans t.of_gw,
      ) in
    (
      _,
      rw printed (
          rw (settings_of-format m h i s g) at (
            parse_network_config-layout jsmn (text m h i s g) _ n (whole m h i s g) before
              (rw printed at tokens))),
      record {
        of_meth = Spans-At m _ t.of_meth.text (At-m m h i s g);
        of_hn = Spans-At h _ t.of_hn.text (At-h m h i s g);
        of_ip = Spans-At i _ t.of_ip.text (At-i m h i s g);
        of_sn = Spans-At s _ t.of_sn.text (At-s m h i s g);
        of_gw = Spans-At g _ t.of_gw.text (At-g m h i s g);
      },
    )

-- Settings that show the same texts.
abbrev pub ShowsTexts : NetworkConfig → Bytes → Bytes → Bytes → Bytes → Bytes → Type 0
ShowsTexts c m h i s g =
    (shown c.meth ≡ m) × (shown c.hn ≡ h) × (shown c.ip ≡ i) × (shown c.sn ≡ s) × (shown c.gw ≡ g)

-- What print_network_config writes for settings whose values span five texts without a NUL,
-- parse_network_config reads back with the result 0 and the same five texts, given that the
-- tokenizer writes the tokens of that document.
pub parse_network_config-print :
    (jsmn : Jsmn) (n : ℕ) (c before : NetworkConfig) (m h i s g : Bytes)
    → Spans c.meth m
    → Spans c.hn h
    → Spans c.ip i
    → Spans c.sn s
    → Spans c.gw g
    → jsmn (print_network_config c) (length (print_network_config c)) 128
      ≡ parsed (suc n) (layout (config_node (length m) (length h) (length i) (length s) (length g)))
    → (after : NetworkConfig) × (parse_network_config jsmn
          (print_network_config c)
          (length (print_network_config c))
          before
        ≡ ok (pos 0, after))
      × ShowsTexts after m h i s g
parse_network_config-print jsmn n c before m h i s g cm ch ci cs cg tokens =
    let given : SpansTexts c m h i s g = record {
      of_meth = cm;
      of_hn = ch;
      of_ip = ci;
      of_sn = cs;
      of_gw = cg;
    } in
    let (after, e, t) = parse_network_config-SpansTexts jsmn n c before m h i s g given tokens in
    (
      after,
      e,
      (
        shown-Spans t.of_meth,
        shown-Spans t.of_hn,
        shown-Spans t.of_ip,
        shown-Spans t.of_sn,
        shown-Spans t.of_gw,
      ),
    )
