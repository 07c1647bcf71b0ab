-- ===== src/Tests/Failures.antt =====
-- A request that ends the process of `main`.
use ucla_cs130_googolplex.Prelude.{
  Bytes, codes, equal, true, [], ◌∷◌, none, some, ◌≡◌, refl, sym, ap,
}
use ucla_cs130_googolplex.Prelude.Int.{negsuc, pos}
use ucla_cs130_googolplex.Std.Dict.{find, contains, assign, insert}
use ucla_cs130_googolplex.Std.Number.{stoi, is_digit}
use ucla_cs130_googolplex.Std.Strings
use ucla_cs130_googolplex.Std.Strings.{drop, take, find_last_of, pop_back_while}
use ucla_cs130_googolplex.Http.{Http, put}
use ucla_cs130_googolplex.Handler.{Handler, check_request_url}
use ucla_cs130_googolplex.Config.Arg.{ConfigArg, default_arg}
use ucla_cs130_googolplex.Config.Port.{safeport_stoi}
use ucla_cs130_googolplex.Config.Token.{parse_token}
use ucla_cs130_googolplex.Config.Stack.{
  emplace_back, back_tokens, push_token, open_block, plug, parent_binding,
}
use ucla_cs130_googolplex.Config.Tree.{empty}
use ucla_cs130_googolplex.Config.Locals.{State}
use ucla_cs130_googolplex.Config.Parse.{parse, returned}
use ucla_cs130_googolplex.Config.File.{parse_file}
use ucla_cs130_googolplex.Config.Token.{end_block}
use ucla_cs130_googolplex.Config.Listing.{Site, stored, listing}
use ucla_cs130_googolplex.Crud
use ucla_cs130_googolplex.Server.{kind_of}
use ucla_cs130_googolplex.Server.Routes.{factory_of}
use ucla_cs130_googolplex.Session.Search.{search_addr_binding}
use ucla_cs130_googolplex.Session.Reply.{World, threw_out, zeros}
use ucla_cs130_googolplex.Session.Connection.{Connection, new_session, start, fails, handle_read}
use ucla_cs130_googolplex.Session.Risks.{handler_of}
use ucla_cs130_googolplex.Server.System.{System, start_accept, handle_accept, accepts}
use ucla_cs130_googolplex.Main.{listening, main}
use ucla_cs130_googolplex.Main.Process.{
  Process, running, over, terminated, launched, end_of, begins, calls, breaks, Reached, starts,
  moves,
}
use ucla_cs130_googolplex.Main.Process.Origin.{IsLawful, Reached-IsLawful}
use ucla_cs130_googolplex.Tests.Messages.{TestRequest, test_http, request_of}
use ucla_cs130_googolplex.Tests.Disks.{file, folder, test_files}
use ucla_cs130_googolplex.Tests.Processes.{number}
use ucla_cs130_googolplex.Tests.Services.{test_service}

-- Every request is a PUT.
abbrev put_http : Http
put_http = record test_http { parse = λ text. some (request_of put text []) }

abbrev crud_disk : test_files.Disk
crud_disk =
    (codes "c", file (codes "listen 80;\nlocation /api CrudHandler {\n  data_path d;\n}\n"))
    ∷ (codes "d", folder)
    ∷ []

abbrev crud_entry : ConfigArg
crud_entry = record default_arg {
  handler_type = codes "CrudHandler";
  location = codes "/api";
  root = codes "d";
}

abbrev crud_world : World put_http test_files test_service
crud_world = record { routes = (codes "/api", factory_of crud_entry) ∷ []; disk = crud_disk }

main_crud : main test_files some 2 (codes "c") crud_disk ≡ listening 80 crud_world.routes crud_disk
unfolding main find equal parse parse_token emplace_back back_tokens push_token safeport_stoi stoi
    open_block plug insert kind_of parent_binding
main_crud = refl

Reaches : Process put_http test_files test_service → Type 0
Reaches = Reached put_http test_files test_service some 1 number 2 (codes "c") crud_disk

abbrev crud_client : Connection
crud_client = start (codes "1.1") new_session

abbrev crud_system : System put_http test_files test_service
crud_system = start_accept put_http test_files test_service (crud_client ∷ []) crud_world

crud_system-Reaches : Reaches (running crud_system)
unfolding Reaches handle_accept launched
crud_system-Reaches =
    moves
      (moves starts
        (begins refl (ap (launched put_http test_files test_service 1) (sym main_crud))))
      (calls (start_accept put_http test_files test_service [] crud_world) crud_system refl
        (accepts (some (codes "1.1")) refl) refl)

abbrev crud_site : Site
crud_site = record {
  location = codes "/api";
  handler_type = codes "CrudHandler";
  content = stored (codes "d");
}

abbrev left_by_parser : State
left_by_parser = record {
  stack = listing (codes "80") (crud_site ∷ []) ∷ [];
  root = none;
  last_token_type = end_block;
  remaining_bracket = pos 0;
  port = pos 80;
  addrmap = (codes "/api", crud_entry) ∷ [];
}

parsed_crud :
    parse_file test_files (codes "c") empty (negsuc 0) [] crud_disk ≡ returned true left_by_parser
unfolding parse_file find equal parse parse_token emplace_back back_tokens push_token safeport_stoi
    stoi open_block plug insert parent_binding listing
parsed_crud = refl

Reached-IsLawful_example :
    IsLawful put_http test_files test_service some 1 number 2
      (codes "c")
      crud_disk
      ((codes "/api", crud_entry) ∷ [])
      crud_system
unfolding Reaches
Reached-IsLawful_example =
    Reached-IsLawful put_http test_files test_service some 1 number 2 (codes "c") crud_disk
      crud_system true left_by_parser parsed_crud crud_system-Reaches

abbrev large_url : Bytes
large_url = codes "/api/shoes/2147483648"

abbrev large_put : TestRequest
large_put = request_of put large_url []

abbrev crud_store : Crud.Store put_http test_files
crud_store = record { table = []; disk = crud_disk }

large_put_fails :
    handle_read put_http test_files test_service (some large_url) crud_client crud_world
    ≡ fails (threw_out crud_world)
unfolding handle_read zeros search_addr_binding find_last_of contains equal take kind_of assign find
    drop check_request_url pop_back_while Crud.handle_request Strings.find Crud.handle_put_request
    Crud.id_name_of Crud.all_digits is_digit Crud.id_of stoi
large_put_fails = refl

abbrev put_handler : Handler
put_handler = handler_of (factory_of crud_entry) (codes "1.1")

-- The request ends the process by an exception.
crud_system_terminated : Reaches (over terminated)
unfolding Reaches end_of
crud_system_terminated = moves crud_system-Reaches (
    breaks crud_system [] [] crud_client large_url (threw_out crud_world) terminated refl refl refl
      large_put_fails refl refl)
