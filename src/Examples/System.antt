-- ===== src/Examples/System.antt =====
-- What the program finds when it starts for the first time.
use atx_sys.Common.{[], none, codes, true}
use atx_sys.Json.{Jsmn, parsed}
use atx_sys.Json.Layout.{layout}
use atx_sys.Network.{NetworkConfig}
use atx_sys.Network.Printed.{config_node}
use atx_sys.System.{UserFile, enoent, defaults}

abbrev pub tokenizer : Jsmn
tokenizer b len n = parsed 13 (layout (config_node 4 6 15 13 13))

abbrev pub missing : UserFile
missing = record {
  stat = enoent;
  content = none;
  creates = true;
  prints = true;
  closes = true;
  partial = [];
}

-- Whatever stood on the stack.
abbrev pub unset : NetworkConfig
unset = record defaults { meth = record { p = codes "static"; len = 6 } }
