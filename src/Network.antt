-- ===== src/Network.antt =====
-- network_management.c: the network settings as JSON, and the /etc/network/interfaces file.
--
-- A `FILE*` that is written is modelled by the bytes that `fprintf` appends to it.
pub mod RoundTrip
pub mod Printed
pub mod Parse
pub mod Method
use atx_sys.Common.{
  Result, ok, ◌>>=◌, ℕ, zero, suc, Bool, ◌||◌, Option, none, some, List, [], ◌∷◌, ◌++◌,
  if◌then◌else◌, Bytes, codes, strncmp_same, print_at_most, ℤ, pos, negsuc,
}
use atx_sys.Json.{
  Token, Tokens, JsmnValue, JsmnResult, Jsmn, failed, parsed, read, json_delve, json_tok_value,
}

pub record NetworkConfig : Type 0 where
  pub meth : JsmnValue
  pub ip : JsmnValue
  pub sn : JsmnValue
  pub gw : JsmnValue
  pub hn : JsmnValue

-- `%.*s` of a value.
abbrev pub shown : JsmnValue → Bytes
shown v = print_at_most v.len v.p

abbrev pub header : Bytes
header =
    codes
      "# This file is generated by altronix atx-sys program.\n# This file will be overwritten on startup.\n# To configure the network please consult atx-sys.\n\n"

abbrev pub common : Bytes
common =
    codes
      "auto lo\niface lo inet loopback\n\niface eth0 inet static\n  address 127.0.0.1\n  netmask 255.255.255.0\n\n"

abbrev pub device_lan : Bytes
device_lan = codes "iface eth0.20 inet static\n  address 192.168.168.100\n  netmask 255.255.255.0\n"

abbrev pub hooks : Bytes
hooks = codes "\n  pre-up /etc/network/nfs_check\n  wait-delay 15\n  hostname "

abbrev pub static_part : Bytes → Bytes → Bytes → Bytes → Bytes
static_part ip sn gw hn =
    codes "iface eth0.10 inet static\n  address "
    ++ (ip
        ++ (codes "\n  netmask "
            ++ (sn ++ (codes "\n  gateway " ++ (gw ++ (hooks ++ (hn ++ codes "\n\n")))))))

abbrev pub dhcp_part : Bytes → Bytes
dhcp_part hn = codes "iface eth0.10 inet dhcp" ++ (hooks ++ (hn ++ codes "\n\n"))

-- The condition of `print_network_interface`.
unfoldable pub is_dhcp : JsmnValue → Bool
is_dhcp meth =
    strncmp_same meth.len meth.p (codes "DHCP")
    || (strncmp_same meth.len meth.p (codes "dhcp") || strncmp_same meth.len meth.p (codes "Dhcp"))

unfoldable pub print_network_interface : NetworkConfig → Bytes
print_network_interface c =
    if is_dhcp c.meth
    then header ++ (common ++ (dhcp_part (shown c.hn) ++ device_lan))
    else header
      ++ (common ++ (static_part (shown c.ip) (shown c.sn) (shown c.gw) (shown c.hn) ++ device_lan))

-- The entries of `tags`, in its order.
pub data Tag : Type 0 where
  tag_ip tag_sn tag_gw tag_meth tag_hn : Tag

abbrev pub key : Tag → Bytes
key tag_ip = codes ".ipv4.ip"
key tag_sn = codes ".ipv4.sn"
key tag_gw = codes ".ipv4.gw"
key tag_meth = codes ".ipv4.meth"
key tag_hn = codes ".ipv4.hn"

abbrev pub store : Tag → JsmnValue → NetworkConfig → NetworkConfig
store tag_ip v c = record c { ip = v }
store tag_sn v c = record c { sn = v }
store tag_gw v c = record c { gw = v }
store tag_meth v c = record c { meth = v }
store tag_hn v c = record c { hn = v }

abbrev pub tags : List Tag
tags = tag_ip ∷ tag_sn ∷ tag_gw ∷ tag_meth ∷ tag_hn ∷ []

-- The loop over the tags; it breaks at the first that is missing, with what it stored so far.
unfoldable pub read_tags : Bytes → Tokens → List Tag → NetworkConfig → Result (ℤ × NetworkConfig)
read_tags buff toks [] c = ok (pos 0, c)
read_tags buff toks (t ∷ ts) c = do
  found ← json_delve buff toks (key t)
  elim found [
    | none ↦ ok (negsuc 0, c)
    | some at ↦ (do k ← read at; read_tags buff toks ts (store t (json_tok_value buff k) c))
  ]

abbrev pub with_tokens {ℓ} : {A : Type ℓ} → A → (Tokens → A) → JsmnResult → A
with_tokens bad good (failed e) = bad
with_tokens bad good (parsed zero toks) = bad
with_tokens bad good (parsed (suc n) toks) = good toks

unfoldable pub parse_network_config : Jsmn → Bytes → ℕ → NetworkConfig → Result (ℤ × NetworkConfig)
parse_network_config jsmn buff len c =
    with_tokens (ok (negsuc 0, c)) (λ toks. read_tags buff toks tags c) (jsmn buff len 128)

-- NETWORK_MANAGEMENT_JSON_FORMAT
unfoldable pub json_format : Bytes → Bytes → Bytes → Bytes → Bytes → Bytes
json_format meth hn ip sn gw =
    codes "{\"ipv4\":{\"meth\":\""
    ++ (meth
        ++ (codes "\",\"hn\":\""
            ++ (hn
                ++ (codes "\",\"ip\":\""
                    ++ (ip
                        ++ (codes "\",\"sn\":\""
                            ++ (sn ++ (codes "\",\"gw\":\"" ++ (gw ++ codes "\"}}")))))))))

unfoldable pub print_network_config : NetworkConfig → Bytes
print_network_config c =
    json_format (shown c.meth) (shown c.hn) (shown c.ip) (shown c.sn) (shown c.gw)

unfoldable pub print_network_config_toks : Bytes → Token → Token → Token → Token → Token → Bytes
print_network_config_toks b tmeth tip tsn tgw thn = print_network_config (record {
  meth = json_tok_value b tmeth;
  ip = json_tok_value b tip;
  sn = json_tok_value b tsn;
  gw = json_tok_value b tgw;
  hn = json_tok_value b thn;
})
