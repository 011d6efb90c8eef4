-- ===== src/Network/Method.antt =====
-- Which interface `print_network_interface` configures, by the text of the method.
use mathlib.Core.Bool.{false≢true}
use atx_sys.Common.{
  sym, ◌∙◌, ◌≡◌, ◌⊎◌, inl, inr, ◌↔◌, true, ◌++◌, Bytes, IsText, codes, length, take,
  strncmp_same-append, print_at_most_whole, Bool-cases, arith,
}
use atx_sys.Json.{JsmnValue}
use atx_sys.Network.{
  NetworkConfig, is_dhcp, print_network_interface, header, common, device_lan, static_part,
  dhcp_part, shown,
}

-- The value spans the text s: its length is the text's, and its pointer reads the text.
pub record Spans (v : JsmnValue) (s : Bytes) : Type 0 where
  pub text : IsText s
  pub span : v.len ≡ length s
  pub post : Bytes
  pub reads : v.p ≡ s ++ post

pub shown-Spans : {v : JsmnValue} {s : Bytes} → Spans v s → shown v ≡ s
shown-Spans {s} r = rw (r.span, r.reads) (print_at_most_whole s r.post r.text)

abbrev pub Begins : Bytes → Bytes → Type 0
Begins s w = take (length s) w ≡ s

-- One of the three spellings of DHCP, or the beginning of one: the empty text too.
abbrev pub BeginsDhcp : Bytes → Type 0
BeginsDhcp s = Begins s (codes "DHCP") ⊎ Begins s (codes "dhcp") ⊎ Begins s (codes "Dhcp")

is_dhcp_iff : {v : JsmnValue} {s : Bytes} → Spans v s → (is_dhcp v ≡ true) ↔ BeginsDhcp s
unfolding is_dhcp
is_dhcp_iff {s} r =
    rw (r.span, r.reads)
      (ground (
        arith,
        strncmp_same-append s r.post (codes "DHCP") r.text,
        strncmp_same-append s r.post (codes "dhcp") r.text,
        strncmp_same-append s r.post (codes "Dhcp") r.text,
      ))

-- For settings that span five texts without a NUL, the text of the method is the beginning of a
-- spelling of DHCP, the empty text included, and the interfaces file has the dhcp stanza with the
-- host name; or it is not, and the file has the static stanza with the address, the mask, the
-- gateway and the host name.
pub print_network_interface_stanza :
    (c : NetworkConfig) (m i s g h : Bytes)
    → Spans c.meth m
    → Spans c.ip i
    → Spans c.sn s
    → Spans c.gw g
    → Spans c.hn h
    → (BeginsDhcp m
        × (print_network_interface c ≡ header ++ (common ++ (dhcp_part h ++ device_lan))))
      ⊎ ((¬ BeginsDhcp m)
          × (print_network_interface c ≡ header ++ (common ++ (static_part i s g h ++ device_lan))))
unfolding print_network_interface
print_network_interface_stanza c m i s g h cm ci cs cg ch = elim (Bool-cases (is_dhcp c.meth)) [
  | inl dynamic ↦ inl ((is_dhcp_iff cm).0 dynamic, rw (dynamic, shown-Spans ch))
  | inr fixed ↦ inr (
    λ begins. false≢true (sym fixed ∙ (is_dhcp_iff cm).1 begins),
    rw (fixed, shown-Spans ci, shown-Spans cs, shown-Spans cg, shown-Spans ch),
  )
]
