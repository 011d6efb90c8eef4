-- ===== src/Examples/Network.antt =====
-- Settings printed, and read back.
use atx_sys.Common.{
  arith, ◌≡◌, refl, List, [], ◌∷◌, ◌++◌, some, none, Bytes, codes, length, Result, ok, ℕ, suc, pos,
  negsuc, ◌⊎◌,
}
use atx_sys.Json.{JsmnValue, Jsmn, parsed}
use atx_sys.Json.Layout.{layout}
use atx_sys.Network.{
  NetworkConfig, print_network_config, parse_network_config, print_network_interface, header,
  common, dhcp_part, static_part, device_lan, json_format,
}
use atx_sys.Network.Method.{Spans, BeginsDhcp, print_network_interface_stanza}
use atx_sys.Network.Parse.{Reports, settings_of, parse_network_config-layout}
use atx_sys.Network.Printed.{config_node}
use atx_sys.Network.RoundTrip.{ShowsTexts, parse_network_config-print}

abbrev value : Bytes → JsmnValue
value s = record { p = s ++ codes "\","; len = length s }

abbrev settings : NetworkConfig
settings = record {
  meth = value (codes "DHCP");
  ip = value (codes "10.0.0.2");
  sn = value (codes "255.0.0.0");
  gw = value (codes "10.0.0.1");
  hn = value (codes "gate");
}

-- A tokenizer that knows this document.
abbrev tokenizer : Jsmn
tokenizer b len n = parsed 13 (layout (config_node 4 4 8 9 8))

abbrev document : Bytes
document =
    codes
      "{\"ipv4\":{\"meth\":\"DHCP\",\"hn\":\"gate\",\"ip\":\"10.0.0.2\",\"sn\":\"255.0.0.0\",\"gw\":\"10.0.0.1\"}}"

prints : print_network_config settings ≡ document
unfolding print_network_config json_format atx_sys.Common.print_at_most
prints = refl

Spans-meth : Spans settings.meth (codes "DHCP")
Spans-meth = record { text = omega arith; span = refl; post = codes "\","; reads = refl }

Spans-hn : Spans settings.hn (codes "gate")
Spans-hn = record { text = omega arith; span = refl; post = codes "\","; reads = refl }

Spans-ip : Spans settings.ip (codes "10.0.0.2")
Spans-ip = record { text = omega arith; span = refl; post = codes "\","; reads = refl }

Spans-sn : Spans settings.sn (codes "255.0.0.0")
Spans-sn = record { text = omega arith; span = refl; post = codes "\","; reads = refl }

Spans-gw : Spans settings.gw (codes "10.0.0.1")
Spans-gw = record { text = omega arith; span = refl; post = codes "\","; reads = refl }

print_network_interface_example :
    (BeginsDhcp (codes "DHCP")
      × (print_network_interface settings
          ≡ header ++ (common ++ (dhcp_part (codes "gate") ++ device_lan))))
    ⊎ ((¬ BeginsDhcp (codes "DHCP"))
        × (print_network_interface settings
            ≡ header
              ++ (common
                  ++ (static_part
                        (codes "10.0.0.2")
                        (codes "255.0.0.0")
                        (codes "10.0.0.1")
                        (codes "gate")
                      ++ device_lan))))
print_network_interface_example =
    print_network_interface_stanza settings (codes "DHCP") (codes "10.0.0.2") (codes "255.0.0.0")
      (codes "10.0.0.1") (codes "gate") Spans-meth Spans-ip Spans-sn Spans-gw Spans-hn

parse_network_config-layout_example :
    Reports
      (settings_of document (config_node 4 4 8 9 8))
      (parse_network_config tokenizer document 89 settings)
parse_network_config-layout_example =
    parse_network_config-layout tokenizer document 89 12 (config_node 4 4 8 9 8) settings refl

parse_network_config-print_example :
    (after : NetworkConfig) × (parse_network_config tokenizer
        (print_network_config settings)
        (length (print_network_config settings))
        settings
      ≡ ok (pos 0, after))
    × ShowsTexts after
        (codes "DHCP")
        (codes "gate")
        (codes "10.0.0.2")
        (codes "255.0.0.0")
        (codes "10.0.0.1")
parse_network_config-print_example =
    parse_network_config-print tokenizer 12 settings settings (codes "DHCP") (codes "gate")
      (codes "10.0.0.2") (codes "255.0.0.0") (codes "10.0.0.1") Spans-meth Spans-hn Spans-ip
      Spans-sn Spans-gw refl
