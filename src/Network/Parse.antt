-- ===== src/Network/Parse.antt =====
-- `parse_network_config` on the tokens of a document.
use atx_sys.Common.{
  Result, ok, ℕ, suc, ◌≡◌, refl, List, [], ◌∷◌, Option, none, some, Bytes, codes, arith, ℤ, pos,
  negsuc, append-nil,
}
use atx_sys.Json.{Jsmn, JsmnValue, parsed, read, json_delve, json_tok_value}
use atx_sys.Json.Layout.{Node, layout, head_token}
use atx_sys.Json.Tree.{value_at, guide_of, AreKeys}
use atx_sys.Json.Delve.{Finds, json_delve-layout}
use atx_sys.Network.{
  NetworkConfig, Tag, tag_ip, tag_sn, tag_gw, tag_meth, tag_hn, key, store, tags, read_tags,
  parse_network_config,
}

abbrev pub path : Bytes → List Bytes
path name = codes "ipv4" ∷ name ∷ []

abbrev pub path_of : Tag → List Bytes
path_of tag_ip = path (codes "ip")
path_of tag_sn = path (codes "sn")
path_of tag_gw = path (codes "gw")
path_of tag_meth = path (codes "meth")
path_of tag_hn = path (codes "hn")

abbrev pub span : Bytes → Node → JsmnValue
span buf w = json_tok_value buf (head_token w)

abbrev pub and_then {ℓ} : {A : Type ℓ} → Option Node → (Node → Option A) → Option A
and_then none f = none
and_then (some v) f = f v

-- The settings that a document holds: the spans of its five values, or nothing if one is missing.
unfoldable pub settings_of : Bytes → Node → Option NetworkConfig
settings_of buf v = and_then (value_at buf v (path (codes "meth"))) λ m.
    and_then (value_at buf v (path (codes "hn"))) λ h.
      and_then (value_at buf v (path (codes "ip"))) λ i.
        and_then (value_at buf v (path (codes "sn"))) λ s.
          and_then (value_at buf v (path (codes "gw"))) λ g. some (record {
            meth = span buf m;
            ip = span buf i;
            sn = span buf s;
            gw = span buf g;
            hn = span buf h;
          })

-- The function returned 0 with these settings; or -1, with some of the settings overwritten.
abbrev pub Reports : Option NetworkConfig → Result (ℤ × NetworkConfig) → Type 0
Reports none r = (c : NetworkConfig) × (r ≡ ok (negsuc 0, c))
Reports (some c) r = r ≡ ok (pos 0, c)

-- The same, tag by tag.
stored : Bytes → Node → List Tag → NetworkConfig → Option NetworkConfig
stored buf v [] c = some c
stored buf v (t ∷ ts) c =
    and_then (value_at buf v (path_of t)) λ w. stored buf v ts (store t (span buf w) c)

path_of-AreKeys : (t : Tag) → AreKeys (path_of t)
path_of-AreKeys tag_ip = omega arith
path_of-AreKeys _ = omega arith

key-guide_of : (t : Tag) → key t ≡ guide_of (path_of t)
key-guide_of tag_ip = refl
key-guide_of _ = refl

read_tags-stored :
    (buf : Bytes) (v : Node) (ts : List Tag) (c : NetworkConfig)
    → Reports (stored buf v ts c) (read_tags buf (layout v) ts c)
unfolding read_tags stored read
read_tags-stored buf v [] c = refl
read_tags-stored buf v (t ∷ ts) c =
    go (value_at buf v (path_of t)) delved λ w. read_tags-stored buf v ts (store t (span buf w) c)
  where
    delved : Finds (value_at buf v (path_of t)) (json_delve buf (layout v) (key t))
    delved =
        rw (key-guide_of t)
          (rw append-nil at (json_delve-layout buf v [] (path_of t) (path_of-AreKeys t)))

    go :
        (o : Option Node)
        → Finds o (json_delve buf (layout v) (key t))
        → ((w : Node)
            → Reports
                (stored buf v ts (store t (span buf w) c))
                (read_tags buf (layout v) ts (store t (span buf w) c)))
        → Reports
            (and_then o λ w. stored buf v ts (store t (span buf w) c))
            (read_tags buf (layout v) (t ∷ ts) c)
    go none e next = (c, rw e)
    go (some w) e next = rw e.1 (next w)

stored-settings_of :
    (buf : Bytes) (v : Node) (c : NetworkConfig) → stored buf v tags c ≡ settings_of buf v
unfolding stored settings_of
stored-settings_of buf v c = ground arith

-- Given the tokens of a document, parse_network_config returns 0 with the spans of the five values
-- under "ipv4" when all five are there, whatever the settings held before, and -1 otherwise.
pub parse_network_config-layout :
    (jsmn : Jsmn) (buff : Bytes) (len : ℕ) (n : ℕ) (v : Node) (c : NetworkConfig)
    → jsmn buff len 128 ≡ parsed (suc n) (layout v)
    → Reports (settings_of buff v) (parse_network_config jsmn buff len c)
unfolding parse_network_config
parse_network_config-layout jsmn buff len n v c e =
    rw (e, ← stored-settings_of buff v c) (read_tags-stored buff v tags c)
