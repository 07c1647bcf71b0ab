-- ===== src/Tests/Messages.antt =====
-- Messages for the tests: a request and a response that keep what is set, and fulfil the laws of `IsHttp`.
use ucla_cs130_googolplex.Prelude.{
  ℕ, Bool, false, ◌==◌, ◌||◌, if◌then◌else◌, Bytes, List, [], ◌∷◌, ◌++◌, Option, none, some, ◌≡◌,
  ◌≢◌, refl,
}
use ucla_cs130_googolplex.Http.{
  Status, ok, Field, content_type, access_control_allow_origin, access_control_allow_methods,
  access_control_allow_headers, Verb, get, Http, IsHttp,
}

pub record TestRequest : Type 0 where
  pub method : Verb
  pub target : Bytes
  pub body : Bytes

pub record TestResponse : Type 0 where
  pub status : Status
  pub content_type : Option Bytes
  pub access_control_allow_origin : Option Bytes
  pub access_control_allow_methods : Option Bytes
  pub access_control_allow_headers : Option Bytes
  pub body : Bytes

abbrev set_field : Field → Bytes → TestResponse → TestResponse
set_field content_type v r = record r { content_type = some v }
set_field access_control_allow_origin v r = record r { access_control_allow_origin = some v }
set_field access_control_allow_methods v r = record r { access_control_allow_methods = some v }
set_field access_control_allow_headers v r = record r { access_control_allow_headers = some v }

abbrev get_field : Field → TestResponse → Option Bytes
get_field content_type r = r.content_type
get_field access_control_allow_origin r = r.access_control_allow_origin
get_field access_control_allow_methods r = r.access_control_allow_methods
get_field access_control_allow_headers r = r.access_control_allow_headers

abbrev join_parts : List Bytes → Bytes → Bytes
join_parts [] sep = []
join_parts (x ∷ []) sep = x
join_parts (x ∷ y ∷ xs) sep = x ++ (sep ++ join_parts (y ∷ xs) sep)

-- A byte in front of the first part.
abbrev onto_first : ℕ → List Bytes → List Bytes
onto_first c [] = (c ∷ []) ∷ []
onto_first c (part ∷ parts) = (c ∷ part) ∷ parts

abbrev is_one_of : ℕ → Bytes → Bool
is_one_of c [] = false
is_one_of c (d ∷ separators) = c == d || is_one_of c separators

abbrev split_text : Bytes → Bytes → List Bytes
split_text [] separators = [] ∷ []
split_text (c ∷ text) separators =
    let parts = split_text text separators in
    if is_one_of c separators then [] ∷ parts else onto_first c parts

abbrev pub test_http : Http
test_http = record {
  Request = TestRequest;
  method = λ q. q.method;
  target = λ q. q.target;
  body = λ q. q.body;
  print_request = λ q. q.target ++ q.body;
  parse = λ text. some (record { method = get; target = text; body = [] });
  Response = TestResponse;
  new_response = record {
    status = ok;
    content_type = none;
    access_control_allow_origin = none;
    access_control_allow_methods = none;
    access_control_allow_headers = none;
    body = [];
  };
  result = λ s r. record r { status = s };
  set = set_field;
  set_body = λ b r. record r { body = b };
  prepare_payload = λ r. r;
  status_of = λ r. r.status;
  field_of = get_field;
  body_of = λ r. r.body;
  print_response = λ r. r.body;
  join = join_parts;
  split = split_text;
}

status_of-set : (f : Field) (v : Bytes) (r : TestResponse) → (set_field f v r).status ≡ r.status
status_of-set content_type v r = refl
status_of-set access_control_allow_origin v r = refl
status_of-set access_control_allow_methods v r = refl
status_of-set access_control_allow_headers v r = refl

body_of-set : (f : Field) (v : Bytes) (r : TestResponse) → (set_field f v r).body ≡ r.body
body_of-set content_type v r = refl
body_of-set access_control_allow_origin v r = refl
body_of-set access_control_allow_methods v r = refl
body_of-set access_control_allow_headers v r = refl

field_of-set_self :
    (f : Field) (v : Bytes) (r : TestResponse) → get_field f (set_field f v r) ≡ some v
field_of-set_self content_type v r = refl
field_of-set_self access_control_allow_origin v r = refl
field_of-set_self access_control_allow_methods v r = refl
field_of-set_self access_control_allow_headers v r = refl

field_of-result :
    (f : Field) (s : Status) (r : TestResponse)
    → get_field f (record r { status = s }) ≡ get_field f r
field_of-result content_type s r = refl
field_of-result access_control_allow_origin s r = refl
field_of-result access_control_allow_methods s r = refl
field_of-result access_control_allow_headers s r = refl

field_of-set_body :
    (f : Field) (b : Bytes) (r : TestResponse) → get_field f (record r { body = b }) ≡ get_field f r
field_of-set_body content_type b r = refl
field_of-set_body access_control_allow_origin b r = refl
field_of-set_body access_control_allow_methods b r = refl
field_of-set_body access_control_allow_headers b r = refl

field_of-set_ne :
    (f g : Field) (v : Bytes) (r : TestResponse)
    → f ≢ g
    → get_field g (set_field f v r) ≡ get_field g r
field_of-set_ne content_type content_type v r ne = absurd (ne refl)
field_of-set_ne content_type access_control_allow_origin v r ne = refl
field_of-set_ne content_type access_control_allow_methods v r ne = refl
field_of-set_ne content_type access_control_allow_headers v r ne = refl
field_of-set_ne access_control_allow_origin content_type v r ne = refl
field_of-set_ne access_control_allow_origin access_control_allow_origin v r ne = absurd (ne refl)
field_of-set_ne access_control_allow_origin access_control_allow_methods v r ne = refl
field_of-set_ne access_control_allow_origin access_control_allow_headers v r ne = refl
field_of-set_ne access_control_allow_methods content_type v r ne = refl
field_of-set_ne access_control_allow_methods access_control_allow_origin v r ne = refl
field_of-set_ne access_control_allow_methods access_control_allow_methods v r ne = absurd (ne refl)
field_of-set_ne access_control_allow_methods access_control_allow_headers v r ne = refl
field_of-set_ne access_control_allow_headers content_type v r ne = refl
field_of-set_ne access_control_allow_headers access_control_allow_origin v r ne = refl
field_of-set_ne access_control_allow_headers access_control_allow_methods v r ne = refl
field_of-set_ne access_control_allow_headers access_control_allow_headers v r ne = absurd (ne refl)

pub test_http-IsHttp : IsHttp test_http
test_http-IsHttp = record {
  status_of-new = refl;
  status_of-result = λ s r. refl;
  status_of-set = status_of-set;
  status_of-set_body = λ b r. refl;
  status_of-prepare_payload = λ r. refl;
  body_of-result = λ s r. refl;
  body_of-set = body_of-set;
  body_of-set_body = λ b r. refl;
  body_of-prepare_payload = λ r. refl;
  field_of-set_self = field_of-set_self;
  field_of-set_ne = field_of-set_ne;
  field_of-result = field_of-result;
  field_of-set_body = field_of-set_body;
  field_of-prepare_payload = λ f r. refl;
  join-nil = λ sep. refl;
  join-one = λ x sep. refl;
  join-cons = λ x y xs sep. refl;
}

abbrev pub request_of : Verb → Bytes → Bytes → TestRequest
request_of v url content = record { method = v; target = url; body = content }
