-- ===== src/Tests/Pages.antt =====
-- The static handler at a concrete disk.
use ucla_cs130_googolplex.Prelude.{codes, equal, [], ◌∷◌, some, ◌≡◌, refl}
use ucla_cs130_googolplex.Std.Dict.{find, contains, assign}
use ucla_cs130_googolplex.Std.Strings.{pop_back_while, find_last_of, take}
use ucla_cs130_googolplex.Http.{get, ok, content_type}
use ucla_cs130_googolplex.ContentType.{get_content_type}
use ucla_cs130_googolplex.Config.Arg.{default_arg}
use ucla_cs130_googolplex.Factory.{Factory, new_factory, static}
use ucla_cs130_googolplex.Session.Search.{search_addr_binding}
use ucla_cs130_googolplex.Session.Reply.{World, replied, route}
use ucla_cs130_googolplex.Session.Pages.{page_served}
use ucla_cs130_googolplex.Tests.Services.{test_service}
use ucla_cs130_googolplex.Tests.Messages.{
  TestRequest, TestResponse, test_http, test_http-IsHttp, request_of,
}
use ucla_cs130_googolplex.Tests.Disks.{file, test_files}

-- The url leaves the directory of the entry.
abbrev parent_url : TestRequest
parent_url = request_of get (codes "/static/../key.txt") []

abbrev with_key_file : test_files.Disk
with_key_file = (codes "d/../key.txt", file (codes "secret")) ∷ []

abbrev page_factory : Factory
page_factory =
    new_factory static (record default_arg { location = codes "/static"; root = codes "d" })

abbrev with_pages : World test_http test_files test_service
with_pages = record { routes = (codes "/static", page_factory) ∷ []; disk = with_key_file }

page_served_example :
    (r : TestResponse) × (route test_http test_files test_service
        (codes "127.0.0.1")
        parent_url
        with_pages
      ≡ replied with_pages r)
    × (test_http.status_of r ≡ ok)
    × (test_http.body_of r ≡ codes "secret")
    × (test_http.field_of content_type r ≡ some (get_content_type (codes ".txt")))
unfolding pop_back_while find equal search_addr_binding find_last_of contains take assign
page_served_example =
    page_served test_http-IsHttp test_files test_service (codes "127.0.0.1") parent_url with_pages
      page_factory (codes "/static") b'.' (codes "./key.txt") (codes "secret") refl refl refl refl
      (record { whole = refl; text = refl })
