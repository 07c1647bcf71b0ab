-- ===== src/Http.antt =====
-- Boost.Beast's messages, which the handlers read and fill in, and Boost's string algorithms, as an
-- interface: the operations that the sources call, and what the documentation says of them.
use ucla_cs130_googolplex.Prelude.{Bytes, List, [], ◌∷◌, ◌++◌, Option, some, ◌≡◌, ◌≢◌}

-- The members of `http::status` that the sources name.
pub data Status : Type 0 where
  ok created no_content bad_request not_found unprocessable_entity internal_server_error : Status

-- The fields that the sources set.
pub data Field : Type 0 where
  content_type access_control_allow_origin access_control_allow_methods : Field
  access_control_allow_headers : Field

-- The methods that the sources tell apart.
pub data Verb : Type 0 where
  get post put delete options other : Verb

pub record Http : Type 1 where
  -- `http::request<http::string_body>`
  pub Request : Type 0
  pub method : Request → Verb
  pub target : Request → Bytes
  pub body : Request → Bytes
  -- `oss << request`
  pub print_request : Request → Bytes
  -- `parser.put` on a buffer with `eager(true)`, and `parser.release`; `none` where `ec` is set
  pub parse : Bytes → Option Request
  -- `http::response<http::string_body>`
  pub Response : Type 0
  pub new_response : Response
  pub result : Status → Response → Response
  pub set : Field → Bytes → Response → Response
  pub set_body : Bytes → Response → Response
  pub prepare_payload : Response → Response
  pub status_of : Response → Status
  pub field_of : Field → Response → Option Bytes
  pub body_of : Response → Bytes
  -- `oss << response`
  pub print_response : Response → Bytes
  -- `boost::algorithm::join(parts, separator)`
  pub join : List Bytes → Bytes → Bytes
  -- `boost::split(parts, text, boost::is_any_of(separators))`
  pub split : Bytes → Bytes → List Bytes

-- A setter sets what it names and nothing else, and `prepare_payload` changes only the fields that
-- describe the length of the body, which no source reads.
pub record IsHttp (http : Http) : Type 0 where
  pub status_of-new : http.status_of http.new_response ≡ ok
  pub status_of-result : (s : Status) (r : http.Response) → http.status_of (http.result s r) ≡ s
  pub status_of-set :
      (f : Field) (v : Bytes) (r : http.Response)
      → http.status_of (http.set f v r) ≡ http.status_of r
  pub status_of-set_body :
      (b : Bytes) (r : http.Response) → http.status_of (http.set_body b r) ≡ http.status_of r
  pub status_of-prepare_payload :
      (r : http.Response) → http.status_of (http.prepare_payload r) ≡ http.status_of r
  pub body_of-result :
      (s : Status) (r : http.Response) → http.body_of (http.result s r) ≡ http.body_of r
  pub body_of-set :
      (f : Field) (v : Bytes) (r : http.Response) → http.body_of (http.set f v r) ≡ http.body_of r
  pub body_of-set_body : (b : Bytes) (r : http.Response) → http.body_of (http.set_body b r) ≡ b
  pub body_of-prepare_payload :
      (r : http.Response) → http.body_of (http.prepare_payload r) ≡ http.body_of r
  pub field_of-set_self :
      (f : Field) (v : Bytes) (r : http.Response) → http.field_of f (http.set f v r) ≡ some v
  pub field_of-set_ne :
      (f g : Field) (v : Bytes) (r : http.Response)
      → f ≢ g
      → http.field_of g (http.set f v r) ≡ http.field_of g r
  pub field_of-result :
      (f : Field) (s : Status) (r : http.Response)
      → http.field_of f (http.result s r) ≡ http.field_of f r
  pub field_of-set_body :
      (f : Field) (b : Bytes) (r : http.Response)
      → http.field_of f (http.set_body b r) ≡ http.field_of f r
  pub field_of-prepare_payload :
      (f : Field) (r : http.Response) → http.field_of f (http.prepare_payload r) ≡ http.field_of f r
  pub join-nil : (sep : Bytes) → http.join [] sep ≡ []
  pub join-one : (x sep : Bytes) → http.join (x ∷ []) sep ≡ x
  pub join-cons :
      (x y : Bytes) (xs : List Bytes) (sep : Bytes)
      → http.join (x ∷ y ∷ xs) sep ≡ x ++ (sep ++ http.join (y ∷ xs) sep)
