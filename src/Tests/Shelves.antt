-- ===== src/Tests/Shelves.antt =====
-- A session that puts a file and reads it back, at a concrete location and disk.
use ucla_cs130_googolplex.Prelude.{
  Bytes, codes, equal, ◌==◌, if◌then◌else◌, true, [], ◌∷◌, Option, none, some, ◌≡◌, refl, arith,
}
use ucla_cs130_googolplex.Std.Dict.{find, contains, assign, less}
use ucla_cs130_googolplex.Std.Number.{stoi, is_digit}
use ucla_cs130_googolplex.Std.Strings
use ucla_cs130_googolplex.Std.Strings.{drop, take, find_last_of, pop_back_while}
use ucla_cs130_googolplex.Http.{Http, IsHttp, get, put, ok}
use ucla_cs130_googolplex.Files.{IsWritable}
use ucla_cs130_googolplex.Handler.{check_request_url, create_dir, write_to_file}
use ucla_cs130_googolplex.Config.Arg.{default_arg}
use ucla_cs130_googolplex.Crud
use ucla_cs130_googolplex.Crud.Putting.{put_path, disk_for_put}
use ucla_cs130_googolplex.Crud.Responses.{prepare_created_response}
use ucla_cs130_googolplex.Factory.{Factory, new_factory, crud}
use ucla_cs130_googolplex.Session.Risks.{handler_of}
use ucla_cs130_googolplex.Session.Search.{search_addr_binding}
use ucla_cs130_googolplex.Session.Reply.{World, empty_response}
use ucla_cs130_googolplex.Session.Connection.{
  Connection, new_session, start, Reachable, created, started,
}
use ucla_cs130_googolplex.Session.Conversation.{IsShort, talk}
use ucla_cs130_googolplex.Session.Stored.{store_at, put_then_get}
use ucla_cs130_googolplex.Tests.Messages.{
  TestRequest, TestResponse, test_http, test_http-IsHttp, request_of,
}
use ucla_cs130_googolplex.Tests.Disks.{file, folder, test_files}
use ucla_cs130_googolplex.Tests.Services.{test_service}

-- A text is a letter for the method and the target.
abbrev request_in : Bytes → Option TestRequest
request_in [] = none
request_in (c ∷ url) =
    some (if c == b'P' then request_of put url (codes "red") else request_of get url [])

abbrev shelf_http : Http
shelf_http = record test_http { parse = request_in }

-- Its responses are those of `test_http`.
shelf_http-IsHttp : IsHttp shelf_http
shelf_http-IsHttp = record {
  status_of-new = test_http-IsHttp.status_of-new;
  status_of-result = test_http-IsHttp.status_of-result;
  status_of-set = test_http-IsHttp.status_of-set;
  status_of-set_body = test_http-IsHttp.status_of-set_body;
  status_of-prepare_payload = test_http-IsHttp.status_of-prepare_payload;
  body_of-result = test_http-IsHttp.body_of-result;
  body_of-set = test_http-IsHttp.body_of-set;
  body_of-set_body = test_http-IsHttp.body_of-set_body;
  body_of-prepare_payload = test_http-IsHttp.body_of-prepare_payload;
  field_of-set_self = test_http-IsHttp.field_of-set_self;
  field_of-set_ne = test_http-IsHttp.field_of-set_ne;
  field_of-result = test_http-IsHttp.field_of-result;
  field_of-set_body = test_http-IsHttp.field_of-set_body;
  field_of-prepare_payload = test_http-IsHttp.field_of-prepare_payload;
  join-nil = test_http-IsHttp.join-nil;
  join-one = test_http-IsHttp.join-one;
  join-cons = test_http-IsHttp.join-cons;
}

abbrev shelf : Factory
shelf = new_factory crud (record default_arg { location = codes "/api"; root = codes "d" })

abbrev shelf_world : World shelf_http test_files test_service
shelf_world = record { routes = (codes "/api", shelf) ∷ []; disk = (codes "d", folder) ∷ [] }

abbrev shopper : Connection
shopper = start (codes "1.1") new_session

shopper-Reachable : Reachable shelf_http test_files test_service shopper shelf_world
shopper-Reachable = started new_session shelf_world (codes "1.1") (created shelf_world) refl

abbrev put_text : Bytes
put_text = codes "P/api/shoes/1"

abbrev get_text : Bytes
get_text = codes "G/api/shoes/1"

put_text-IsShort : IsShort put_text
put_text-IsShort = (ground arith, omega arith)

get_text-IsShort : IsShort get_text
get_text-IsShort = (ground arith, omega arith)

abbrev empty_shelf : Crud.Store shelf_http test_files
empty_shelf =
    store_at shelf_http test_files test_service (codes "1.1") (codes "/api") shelf shelf_world

abbrev with_red : Crud.Store shelf_http test_files
with_red = record {
  table = (codes "shoes", 1 ∷ []) ∷ [];
  disk =
      (codes "d", folder)
      ∷ (codes "d/shoes", folder)
      ∷ (codes "d/shoes/1", file (codes "red"))
      ∷ [];
}

abbrev created_red : TestResponse
created_red =
    prepare_created_response shelf_http 1 (empty_response shelf_http test_files test_service)

red_put :
    Crud.handle_request shelf_http test_files
      (handler_of shelf (codes "1.1"))
      (request_of put (codes "/api/shoes/1") (codes "red"))
      (empty_response shelf_http test_files test_service)
      empty_shelf
    ≡ Crud.returned true with_red created_red
unfolding Crud.handle_request check_request_url Strings.find Crud.handle_put_request Crud.id_name_of
    find_last_of pop_back_while drop Crud.all_digits is_digit Crud.id_of stoi contains create_dir
    equal write_to_file assign less take find Crud.entity_of
red_put = refl

red-IsWritable :
    IsWritable test_files
      (put_path shelf_http test_files
        (handler_of shelf (codes "1.1"))
        (codes "shoes/1")
        empty_shelf)
      (disk_for_put shelf_http test_files
        (handler_of shelf (codes "1.1"))
        (codes "shoes/1")
        empty_shelf)
unfolding find assign contains create_dir equal less Crud.entity_of find_last_of take
red-IsWritable = record {
  written = λ content. record { whole = refl; text = refl };
  written_is_file = λ content. record { status = refl; here = refl; file = refl };
}

put_then_get_example :
    (r : TestResponse) × (w : World shelf_http test_files test_service) × (talk shelf_http
        test_files test_service
        (put_text ∷ get_text ∷ [])
        shopper
        shelf_world
      ≡ some (shelf_http.print_response created_red ∷ shelf_http.print_response r ∷ [], w))
    × (shelf_http.status_of r ≡ ok)
    × (shelf_http.body_of r ≡ codes "red")
unfolding search_addr_binding find_last_of contains equal take find check_request_url Strings.find
    pop_back_while drop
put_then_get_example =
    put_then_get shelf_http-IsHttp test_files test_service shopper (codes "/api") (codes "shoes/1")
      shelf shelf_world put_text get_text (request_of put (codes "/api/shoes/1") (codes "red"))
      (request_of get (codes "/api/shoes/1") []) with_red created_red shopper-Reachable refl
      put_text-IsShort get_text-IsShort refl refl refl refl refl refl refl refl refl refl red_put
      red-IsWritable
