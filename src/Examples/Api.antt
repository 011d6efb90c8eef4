-- ===== src/Examples/Api.antt =====
-- The network settings and the environment over HTTP.
use atx_sys.Common.{
  arith, ◌≡◌, refl, List, [], ◌∷◌, ◌++◌, Option, none, some, Bytes, codes, length, take, drop,
  Result, ok, fault, bad_read, true, false, replicate, ℕ,
}
use atx_sys.Json.{JsmnValue, Jsmn, parsed}
use atx_sys.Json.Layout.{Node, layout}
use atx_sys.Network.{NetworkConfig}
use atx_sys.Network.Parse.{settings_of}
use atx_sys.Network.Printed.{config_node}
use atx_sys.Http.Codes.{Method}
use atx_sys.RouteNetwork.{Disk, route_network, put}
use atx_sys.RouteNetwork.Put.{Puts, put-Puts}
use atx_sys.RouteNetwork.ReadBack.{route_network_directive}
use atx_sys.Env.{Var}
use atx_sys.RouteEnv.{route_env}
use atx_sys.RouteEnv.Get.{value_or_not_found, value_of, route_env-value}

abbrev pub node : Node
node = config_node 4 4 8 9 8

abbrev pub document : Bytes
document =
    codes
      "{\"ipv4\":{\"meth\":\"DHCP\",\"hn\":\"gate\",\"ip\":\"10.0.0.2\",\"sn\":\"255.0.0.0\",\"gw\":\"10.0.0.1\"}}"

abbrev pub tokenizer : Jsmn
tokenizer b len n = parsed 13 (layout node)

abbrev pub disk : Disk
disk = record {
  opens = true;
  prints = true;
  closes = true;
  partial = [];
  error = codes "Permission denied";
  special = λ s. fault bad_read;
}

put-Puts_example : Puts disk none (settings_of document node) (put tokenizer disk none 89 document)
put-Puts_example = put-Puts tokenizer disk none 89 document 12 node refl

abbrev found : ℕ → ℕ → JsmnValue
found start len = record { p = drop start document; len = len }

abbrev pub settings : NetworkConfig
settings = record {
  meth = found 17 4;
  ip = found 41 8;
  sn = found 57 9;
  gw = found 74 8;
  hn = found 29 4;
}

pub settings_read : settings_of document node ≡ some settings
unfolding settings_of atx_sys.Json.Tree.value_at atx_sys.Common.bytes_eq atx_sys.Json.json_tok_value
settings_read = refl

route_network_directive_example :
    route_network tokenizer disk (some (codes "50" ++ b'%' ∷ b'd' ∷ codes "off")) Method.get 0 []
    ≡ fault bad_read
route_network_directive_example =
    route_network_directive tokenizer disk (codes "50") (codes "off") b'd' 0 [] (omega arith) refl

abbrev variables : List Var
variables = (codes "foobar", codes "1") ∷ (codes "foobarx", codes "2") ∷ []

-- The name is cut after seven bytes where a pointer has eight.
route_env-value_example :
    route_env 8
      (λ q w. some 0)
      ([] ++ (codes "var" ++ b'=' ∷ (codes "foobarxyz" ++ [])))
      (codes " HTTP/1.1")
      variables
      (replicate 4096 0)
      Method.get
    ≡ ok (some (value_or_not_found (value_of (codes "foobarx") variables)))
route_env-value_example =
    route_env-value 8 (λ q w. some 0) [] (codes "foobarxyz") [] (codes " HTTP/1.1") variables
      (replicate 4096 0) refl (omega arith) (omega arith) (omega arith) tt
