-- ===== src/TextGen/Messages.antt =====
-- The messages and the `prepare_..._response` members of request_handler_text_gen.
use ucla_cs130_googolplex.Prelude.{Bytes, codes}
use ucla_cs130_googolplex.Http.{Http, bad_request, not_found, internal_server_error, content_type}
use ucla_cs130_googolplex.Handler.{bad_request_msg, not_found_msg, internal_server_error_msg}

abbrev pub post_format_msg : Bytes
post_format_msg =
    codes "<h4>Bad Request</h4>Required POST request body format: title=xxx&prompt=xxx"

abbrev pub valid_input_msg : Bytes
valid_input_msg =
    codes
      "<h4>Bad Request</h4><h5>Invalid title:</h5> <ul><li>at least 1 character and at most 20 characters            </li> <li>only contains letters, numeric characters, special characters (\".\", \"_\", \"-\", and \" \")</li></ul><h5>Invalid text prompt:            </h5> <ul><li>at least 1 character and at most 50 characters</li><li>only contains letters, numeric characters, special characters (\"?\", \",\", \"_\", \"-\", and \" \")</li></ul>"

abbrev pub api_communication_msg : Bytes
api_communication_msg =
    codes
      "<h4>Bad Request</h4>Whoops, errors happen in the process: <ul>            <li>communication with the text generation API</li></ul>Please wait for a moment and try again"

abbrev pub file_system_msg : Bytes
file_system_msg =
    codes
      "<h4>Bad Request</h4>Whoops, errors happen in the process: <ul>            <li>storing the data to server's filesystem</li></ul>Please wait for a moment and try again"

abbrev pub invalid_url_msg : Bytes
invalid_url_msg = codes "<h4>Bad Request</h4>The URL you entered is not valid"

module _ (http : Http) where
  open http use {Response, result, set, set_body, prepare_payload}

  unfoldable pub prepare_bad_request_response : Response → Response
  prepare_bad_request_response r =
      prepare_payload
        (set_body bad_request_msg (set content_type (codes "text/html") (result bad_request r)))

  unfoldable pub prepare_not_found_response : Response → Response
  prepare_not_found_response r =
      prepare_payload
        (set_body not_found_msg (set content_type (codes "text/html") (result not_found r)))

  unfoldable pub prepare_internal_server_error_response : Response → Response
  prepare_internal_server_error_response r = prepare_payload (
      set content_type (codes "text/html")
        (set_body internal_server_error_msg (result internal_server_error r)))
