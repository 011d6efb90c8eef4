-- ===== src/Examples/Serve.antt =====
-- A browser that replaces the settings, and reads.
use atx_sys.Common.{[], none, codes, true}
use atx_sys.Api.{Message, Outside}
use atx_sys.Examples.Api.{tokenizer}
use atx_sys.Examples.Loop.{files}

abbrev pub outside : Outside
outside = record {
  jsmn = tokenizer;
  strstr = λ q w. none;
  files = files;
  send_file = λ p. [];
  send_root = λ p. [];
  vars = [];
  buffer = [];
  pointer = 4;
  valid = true;
}

abbrev pub about : Message
about = record {
  request = record { uri = codes "/api/v1/about"; method = codes "GET"; body = [] };
  query = [];
  behind = [];
}
