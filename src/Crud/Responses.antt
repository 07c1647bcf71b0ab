-- ===== src/Crud/Responses.antt =====
-- The `prepare_..._response` members of src/request_handler_crud.cc.
use ucla_cs130_googolplex.Prelude.{ℕ, codes, ◌++◌}
use ucla_cs130_googolplex.Std.Number.{to_string}
use ucla_cs130_googolplex.Http.{
  Http, created, bad_request, not_found, unprocessable_entity, internal_server_error, content_type,
}

module _ (http : Http) where
  open http use {Response, result, set, set_body, prepare_payload}

  unfoldable pub prepare_created_response : ℕ → Response → Response
  prepare_created_response value r = prepare_payload (
      set_body (codes "Created entry at {\"id\":" ++ (to_string value ++ codes "}\n"))
        (set content_type (codes "text/plain") (result created r)))

  unfoldable pub prepare_unprocessable_entity_response : Response → Response
  prepare_unprocessable_entity_response r = prepare_payload (
      set_body
        (codes
          "<html><head><title>Unprocessable Entity</title></head><body><h1>422 Unprocessable Entity</h1></body></html>")
        (set content_type (codes "text/html") (result unprocessable_entity r)))

  unfoldable pub prepare_internal_server_error_response : Response → Response
  prepare_internal_server_error_response r = prepare_payload (
      set_body
        (codes
          "<html><head><title>Internal Server Error</title></head><body><h1>500 Internal Server Error</h1></body></html>")
        (set content_type (codes "text/html") (result internal_server_error r)))

  unfoldable pub prepare_bad_request_response : Response → Response
  prepare_bad_request_response r = prepare_payload (
      set_body (codes "Invalid CRUD method.\n")
        (set content_type (codes "text/plain") (result bad_request r)))

  unfoldable pub prepare_not_found_response : Response → Response
  prepare_not_found_response r = prepare_payload (
      set_body
        (codes
          "<html><head><title>Not Found</title></head><body><h1>404 Not Found</h1></body></html>")
        (set content_type (codes "text/html") (result not_found r)))

  -- Twice in `handle_delete_request`.
  unfoldable pub invalid_format_response : Response → Response
  invalid_format_response r = prepare_payload (
      set_body (codes "Invalid format; expected a file ID.\n")
        (set content_type (codes "text/plain") (result bad_request r)))
