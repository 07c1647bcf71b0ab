-- ===== src/TextGen.antt =====
-- `request_handler_text_gen` of src/request_handler_text_gen.cc and include/request_handler_text_gen.h.
pub mod Api
pub mod Curl
pub mod Input
pub mod Escape
pub mod Messages
pub mod Posting
pub mod Reading
pub mod Removal
use ucla_cs130_googolplex.Prelude.{
  Bytes, codes, equal, if◌then◌else◌, Bool, true, false, ◌||◌, not, [], ◌∷◌, ◌++◌, Option, none,
  some,
}
use ucla_cs130_googolplex.Http.{
  Http, ok, no_content, content_type, access_control_allow_origin, access_control_allow_methods,
  access_control_allow_headers, Verb, get, post, delete, options,
}
use ucla_cs130_googolplex.Files.{FileSystem}
use ucla_cs130_googolplex.Handler.{
  Handler, write_to_file, read_from_file, create_dir, check_request_url,
}
use Api.{Service}
use Curl.{curl_api}
use Input.{
  dot2underscore, replace_space, check_prompts_validity, check_title_validity, parse_post_body,
  Post,
}
use Messages.{
  post_format_msg, valid_input_msg, api_communication_msg, file_system_msg, invalid_url_msg,
  prepare_bad_request_response, prepare_not_found_response, prepare_internal_server_error_response,
}

module _ (http : Http) (files : FileSystem) (service : Service) where
  open http use {
    Request, Response, method, target, body, result, set, set_body, prepare_payload, join,
  }
  open files use {
    Disk, exists, is_directory, is_regular_file, status_fails, regular_files, remove_file,
  }
  open service use {Json, text, object, dump, parse_json, output_of}

  -- A handler returns, or throws an exception that it does not catch.
  pub data Handled : Type 0 where
    returned : Bool → Disk → Response → Handled
    threw : Disk → Handled

  -- The end of a `prepare_..._response` whose body is then replaced.
  abbrev with_body : Bytes → Response → Response
  with_body content r = prepare_payload (set_body content r)

  -- `parse_raw_output`, which catches every exception
  unfoldable pub parse_raw_output : Bytes → Option Bytes
  parse_raw_output raw_output = elim (parse_json raw_output) [ none ↦ none | some j ↦ output_of j ]

  -- The folder of the client.
  abbrev pub client_folder : Handler → Bytes
  client_folder h = h.dir ++ (codes "/" ++ dot2underscore h.client_ip)

  unfoldable pub entry_of : Bytes → Bytes → Bytes → Json
  entry_of title prompt output = object (
      (codes "output", text output)
      ∷ (codes "text_prompt", text prompt)
      ∷ (codes "title", text title)
      ∷ [])

  unfoldable pub failed : Bytes → Disk → Response → Handled
  failed msg d r = returned false d (with_body msg (prepare_internal_server_error_response http r))

  -- The end of `handle_post_request`, with the text that was generated.
  unfoldable pub save_output : Handler → Post → Bytes → Response → Disk → Handled
  unfolding failed entry_of
  save_output h p output r d =
      let r' =
        prepare_payload (set content_type (codes "text/plain") (set_body output (result ok r))) in
      let (made, d') = create_dir files (client_folder h) d in
      elim made [
        | none ↦ threw d'
        | some false ↦ failed file_system_msg d' r'
        | some true ↦ elim (dump (entry_of p.title p.prompt output)) [
          | none ↦ threw d'
          | some entry ↦
              let (written, d'') =
                write_to_file files (client_folder h ++ (codes "/" ++ p.title)) entry d' in
              elim written [
                | none ↦ threw d''
                | some true ↦ returned true d'' r'
                | some false ↦ failed file_system_msg d'' r'
              ]
        ]
      ]

  unfoldable pub handle_post_request : Handler → Bytes → Request → Response → Disk → Handled
  unfolding save_output failed parse_raw_output curl_api
  handle_post_request h api_key request r d = elim (parse_post_body http (body request)) [
    | none ↦ returned false d (with_body post_format_msg (prepare_bad_request_response http r))
    | some p ↦
        if not (check_prompts_validity p.prompt) || not (check_title_validity p.title)
        then returned false d (with_body valid_input_msg (prepare_bad_request_response http r))
        else elim (curl_api service api_key p.prompt) [
          | none ↦ failed api_communication_msg d r
          | some raw_output ↦ elim (parse_raw_output raw_output) [
            | none ↦ failed api_communication_msg d r
            | some output ↦ save_output h p output r d
          ]
        ]
  ]

  -- A JSON body, where `dump` does not throw.
  unfoldable pub reply_json : Json → Bool → Disk → (Bytes → Response) → Handled
  reply_json j b d reply = elim (dump j) [
    | none ↦ threw d
    | some content ↦ returned b d (reply content)
  ]

  unfoldable pub get_ip_file_list : Handler → Bytes → Response → Disk → Handled
  unfolding reply_json
  get_ip_file_list h path r d =
      if status_fails path d
      then threw d
      else if exists path d
      then (if is_directory path d
          then elim (regular_files path d) [
            | none ↦ threw d
            | some title_list ↦
                reply_json
                  (object (
                    (
                      codes "title list",
                      text (codes "[" ++ (join title_list (codes ",") ++ codes "]")),
                    )
                    ∷ (codes "IP", text (dot2underscore h.client_ip))
                    ∷ []))
                  true d
                  (λ content.
                    prepare_payload (
                      set_body content (set content_type (codes "application/json") (result ok r))))
          ]
          else returned false d (prepare_not_found_response http r))
      else returned false d (prepare_not_found_response http r)

  abbrev pub status_fields : Handler → Bytes → Bytes → Json → Json
  status_fields h status suffix j = object (
      (codes "content", j)
      ∷ (codes "status", text status)
      ∷ (codes "title", text suffix)
      ∷ (codes "IP", text (dot2underscore h.client_ip))
      ∷ [])

  abbrev pub json_response : Response → Bytes → Response
  json_response r content =
      prepare_payload (set content_type (codes "application/json") (set_body content (result ok r)))

  abbrev pub removed_fields : Handler → Bytes → Json
  removed_fields h suffix = object (
      (codes "status", text (codes "removed"))
      ∷ (codes "title", text suffix)
      ∷ (codes "IP", text (dot2underscore h.client_ip))
      ∷ [])

  unfoldable pub remove_title : Handler → Bytes → Bytes → Response → Disk → Handled
  unfolding reply_json
  remove_title h titlepath suffix r d = elim (remove_file titlepath d) [
    | none ↦ threw d
    | some d' ↦ reply_json (removed_fields h suffix) true d' (json_response r)
  ]

  unfoldable pub read_title : Handler → Bytes → Bytes → Response → Disk → Handled
  unfolding reply_json
  read_title h titlepath suffix r d = elim (read_from_file files titlepath d) [
    | none ↦ threw d
    | some none ↦ returned false d (prepare_not_found_response http r)
    | some (some filecontent) ↦ elim (parse_json filecontent) [
      | none ↦ threw d
      | some j ↦ reply_json (status_fields h (codes "readed") suffix j) true d (json_response r)
    ]
  ]

  unfoldable pub get_title_file : Handler → Bytes → Bytes → Bool → Response → Disk → Handled
  unfolding remove_title read_title
  get_title_file h path suffix remove r d =
      let titlepath = path ++ (codes "/" ++ suffix) in
      if status_fails path d
      then threw d
      else if exists path d
      then (if is_directory path d
          then (if status_fails titlepath d
              then threw d
              else if is_regular_file titlepath d
              then (if remove
                  then remove_title h titlepath suffix r d
                  else read_title h titlepath suffix r d)
              else returned false d (prepare_not_found_response http r))
          else returned false d (prepare_not_found_response http r))
      else returned false d (prepare_not_found_response http r)

  abbrev pub page_path : Bytes
  page_path = codes "../static/static1/text.html"

  -- `handle_get_request` behind the check of the url.
  unfoldable pub get_suffix : Handler → Bytes → Response → Disk → Handled
  unfolding get_ip_file_list get_title_file
  get_suffix h suffix r d =
      if equal suffix []
      then elim (read_from_file files page_path d) [
        | none ↦ threw d
        | some (some content) ↦ returned true d (
            prepare_payload (set_body content (set content_type (codes "text/html") (result ok r))))
        | some none ↦ returned false d (prepare_internal_server_error_response http r)
      ]
      else if equal suffix (codes "history?")
      then get_ip_file_list h (client_folder h) r d
      else get_title_file h (client_folder h) suffix false r d

  unfoldable pub handle_get_request : Handler → Request → Response → Disk → Handled
  unfolding get_suffix
  handle_get_request h request r d =
      let (valid, suffix) = check_request_url h (replace_space (target request)) true in
      if not valid
      then returned false d (prepare_bad_request_response http r)
      else get_suffix h suffix r d

  unfoldable pub handle_delete_request : Handler → Request → Response → Disk → Handled
  unfolding get_title_file
  handle_delete_request h request r d =
      let (valid, suffix) = check_request_url h (replace_space (target request)) false in
      if not valid
      then returned false d (with_body invalid_url_msg (prepare_bad_request_response http r))
      else get_title_file h (client_folder h) suffix true r d

  unfoldable pub handle_options_request : Response → Disk → Handled
  handle_options_request r d = returned true d (
      set access_control_allow_headers (codes "*") (
        set access_control_allow_methods (codes "*")
          (set access_control_allow_origin (codes "*") (result no_content r))))

  unfoldable pub dispatch : Verb → Handler → Bytes → Request → Response → Disk → Handled
  unfolding handle_post_request handle_get_request handle_delete_request handle_options_request
  dispatch post h api_key request r d = handle_post_request h api_key request r d
  dispatch get h api_key request r d = handle_get_request h request r d
  dispatch delete h api_key request r d = handle_delete_request h request r d
  dispatch options h api_key request r d = handle_options_request r d
  dispatch _ h api_key request r d = returned false d (prepare_bad_request_response http r)

  unfoldable pub handle_request : Handler → Bytes → Request → Response → Disk → Handled
  unfolding dispatch
  handle_request h api_key request r d = dispatch (method request) h api_key request r d
