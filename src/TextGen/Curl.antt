-- ===== src/TextGen/Curl.antt =====
-- `curl_api` of src/request_handler_text_gen.cc.
use ucla_cs130_googolplex.Prelude.{
  Bytes, codes, if◌then◌else◌, List, [], ◌∷◌, ◌++◌, Option, none, some,
}
use ucla_cs130_googolplex.Std.Strings.{c_str}
use ucla_cs130_googolplex.TextGen.Api.{Transfer, Service}

-- The transfer that the options and the form describe. curl is given C strings.
abbrev pub transfer_of : Bytes → Bytes → Transfer
transfer_of api_key input = record {
  url = codes "https://api.deepai.org/api/text-generator";
  part_name = codes "text";
  part_data = c_str input;
  header = c_str (codes "api-key:" ++ api_key);
}

-- `WriteCallback`, which takes the whole piece
abbrev pub write_callback : Bytes → Bytes → Bytes
write_callback contents output = output ++ contents

-- The string behind the calls of the write function.
unfoldable pub received : List Bytes → Bytes → Bytes
received [] output = output
received (contents ∷ pieces) output = received pieces (write_callback contents output)

-- `curl_api`, with the output that it appends to an empty string; `none` for false.
unfoldable pub curl_api : Service → Bytes → Bytes → Option Bytes
unfolding received
curl_api service api_key input =
    if service.easy_init
    then some (received (service.easy_perform (transfer_of api_key input)) [])
    else none
