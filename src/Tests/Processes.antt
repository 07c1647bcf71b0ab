-- ===== src/Tests/Processes.antt =====
-- The process of `main` at a concrete configuration file, with one client.
use ucla_cs130_googolplex.Prelude.{
  ℕ, Bytes, codes, equal, List, [], ◌∷◌, some, All, ◌≡◌, refl, sym, ap, arith,
}
use ucla_cs130_googolplex.Std.Dict.{find, insert}
use ucla_cs130_googolplex.Std.Strings.{pop_back_while}
use ucla_cs130_googolplex.Std.Number.{stoi}
use ucla_cs130_googolplex.Http.{get, ok, content_type}
use ucla_cs130_googolplex.Config.Arg.{ConfigArg, default_arg}
use ucla_cs130_googolplex.Config.Port.{safeport_stoi}
use ucla_cs130_googolplex.Config.Token.{parse_token, ends_token}
use ucla_cs130_googolplex.Config.Stack.{
  emplace_back, back_tokens, push_token, open_block, plug, parent_binding,
}
use ucla_cs130_googolplex.Config.Tree.{to_string}
use ucla_cs130_googolplex.Config.Parse.{parse}
use ucla_cs130_googolplex.Config.Listing.{Site, rooted, listing, site_at, IsSite}
use ucla_cs130_googolplex.Server.{kind_of}
use ucla_cs130_googolplex.Server.Routes.{factory_of}
use ucla_cs130_googolplex.Session.Reply.{World}
use ucla_cs130_googolplex.Session.Connection.{Connection, new_session, start}
use ucla_cs130_googolplex.Session.Received.{NoZero}
use ucla_cs130_googolplex.Server.System.{System, start_accept, handle_accept, accepts}
use ucla_cs130_googolplex.Server.System.Service.{answered}
use ucla_cs130_googolplex.ContentType.{get_content_type}
use ucla_cs130_googolplex.Main.{listening, main}
use ucla_cs130_googolplex.Main.Process.{
  Signal, Process, running, launched, Move, begins, calls, Reached, starts, moves,
}
use ucla_cs130_googolplex.Main.Process.Paged.{IsLongest, listed_page_served}
use ucla_cs130_googolplex.Tests.Messages.{
  TestRequest, TestResponse, test_http, test_http-IsHttp, request_of,
}
use ucla_cs130_googolplex.Tests.Disks.{file, test_files}
use ucla_cs130_googolplex.Tests.Services.{test_service}

abbrev page_sites : List Site
page_sites =
    record {
      location = codes "/static";
      handler_type = codes "StaticHandler";
      content = rooted (codes "d");
    }
    ∷ []

abbrev config_text : Bytes
config_text = codes "listen 80;\nlocation /static StaticHandler {\n  root d;\n}\n"

config_text-listing : config_text ≡ to_string (listing (codes "80") page_sites) 0
unfolding to_string listing
config_text-listing = refl

abbrev page_disk : test_files.Disk
page_disk = (codes "c", file config_text) ∷ (codes "d/a.txt", file (codes "hi")) ∷ []

abbrev page_entry : ConfigArg
page_entry = record default_arg {
  handler_type = codes "StaticHandler";
  location = codes "/static";
  root = codes "d";
}

abbrev page_world : World test_http test_files test_service
page_world = record { routes = (codes "/static", factory_of page_entry) ∷ []; disk = page_disk }

abbrev pub number : Signal → ℕ
number Signal.sigint = 2
number Signal.sigalrm = 14
number Signal.sigterm = 15

main_pages : main test_files some 2 (codes "c") page_disk ≡ listening 80 page_world.routes page_disk
unfolding main find equal parse parse_token emplace_back back_tokens push_token safeport_stoi stoi
    ends_token open_block plug insert kind_of parent_binding
main_pages = refl

Reaches : Process test_http test_files test_service → Type 0
Reaches = Reached test_http test_files test_service some 1 number 2 (codes "c") page_disk

abbrev page_client : Connection
page_client = start (codes "1.1") new_session

abbrev paged_system : System test_http test_files test_service
paged_system = start_accept test_http test_files test_service (page_client ∷ []) page_world

paged_system-Reaches : Reaches (running paged_system)
unfolding Reaches handle_accept launched
paged_system-Reaches =
    moves
      (moves starts
        (begins refl (ap (launched test_http test_files test_service 1) (sym main_pages))))
      (calls (start_accept test_http test_files test_service [] page_world) paged_system refl
        (accepts (some (codes "1.1")) refl) refl)

abbrev page_url : Bytes
page_url = codes "/static/a.txt"

page_url-NoZero : NoZero page_url
page_url-NoZero = ground arith

page_sites-IsSite : All IsSite page_sites
unfolding ends_token equal
page_sites-IsSite = ground arith

page_sites-IsLongest : IsLongest (codes "/static") (codes "/static/a.txt/") page_sites
page_sites-IsLongest = (λ rest e. omega arith, tt)

abbrev page_request : TestRequest
page_request = request_of get page_url []

listed_page_served_example :
    (r : TestResponse) × (w : World test_http test_files test_service) × (t : System test_http
      test_files test_service)
    × Move test_http test_files test_service some 1 number 2
        (codes "c")
        page_disk
        (running paged_system)
        (running t)
    × Move test_http test_files test_service some 1 number 2 (codes "c") page_disk (running t) (
        running (
          start_accept test_http test_files test_service
            (answered (codes "1.1") (test_http.print_response r) ∷ [])
            w))
    × (w.disk ≡ page_disk)
    × ((test_http.status_of r ≡ ok)
        × (test_http.body_of r ≡ codes "hi")
        × (test_http.field_of content_type r ≡ some (get_content_type (codes ".txt"))))
unfolding Reaches kind_of equal pop_back_while find site_at safeport_stoi stoi ends_token
listed_page_served_example =
    listed_page_served test_files (codes "c") (codes "80") 80 page_sites page_disk test_http-IsHttp
      test_service some 1 number paged_system [] [] page_client page_url (codes "1.1")
      (codes "/static") page_entry page_request b'a' (codes ".txt") (codes "hi")
      (ap some config_text-listing) ((refl, refl), (refl, tt)) refl page_sites-IsSite
      paged_system-Reaches refl refl page_url-NoZero (omega arith) refl refl refl
      page_sites-IsLongest refl (record { whole = refl; text = refl })
