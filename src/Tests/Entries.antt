-- ===== src/Tests/Entries.antt =====
-- The crud handler at a concrete table and disk: one entity, "shoes", with the ids 1 and 3.
use ucla_cs130_googolplex.Prelude.{codes, equal, true, false, [], ◌∷◌, ◌++◌, ◌≡◌, refl, arith}
use ucla_cs130_googolplex.Std.Dict.{find, contains, assign, less}
use ucla_cs130_googolplex.Std.Number.{to_string}
use ucla_cs130_googolplex.Http.{post, ok, created}
use ucla_cs130_googolplex.Files.{IsWritable}
use ucla_cs130_googolplex.Handler.{Handler}
use ucla_cs130_googolplex.Crud.Ids.{Table, get_next_id, lowest_from, ids, member}
use ucla_cs130_googolplex.Crud.Ids.Tables.{AllRising}
use ucla_cs130_googolplex.Crud.Ids.NextId.{IsNextId, get_next_id-IsNextId}
use ucla_cs130_googolplex.Crud.Invariant.{
  table_of, Change, handle_request-Change, handle_request-AllRising,
}
use ucla_cs130_googolplex.Crud.{
  Store, returned, handle_post_request, handle_get_request, handle_request, id_name_of,
}
use ucla_cs130_googolplex.Crud.Responses.{prepare_created_response}
use ucla_cs130_googolplex.Std.Strings.{find_last_of, drop}
use ucla_cs130_googolplex.Crud.Posting.{
  new_id, new_file, after_post, disk_with_folder, lost_post_takes_id, post_creates, get_after_post,
  handle_post_request_created,
}
use ucla_cs130_googolplex.Tests.Messages.{
  TestRequest, TestResponse, test_http, test_http-IsHttp, request_of,
}
use ucla_cs130_googolplex.Tests.Disks.{folder, test_files}

abbrev two_ids : Table
two_ids = (codes "shoes", 1 ∷ 3 ∷ []) ∷ []

two_ids-AllRising : AllRising two_ids
two_ids-AllRising = ((((omega arith), tt), (tt, tt)), tt)

get_next_id-IsNextId_example :
    IsNextId
      (codes "shoes")
      two_ids
      (get_next_id (codes "shoes") two_ids).0
      (get_next_id (codes "shoes") two_ids).1
get_next_id-IsNextId_example = get_next_id-IsNextId (codes "shoes") two_ids two_ids-AllRising

abbrev shop : Handler
shop = record { client_ip = codes "127.0.0.1"; prefix = codes "/api"; dir = codes "d" }

-- The disk has the folder of the entity.
abbrev stock : Store test_http test_files
stock = record { table = two_ids; disk = (codes "d/shoes", folder) ∷ [] }

-- Here a folder stands where the file of the next id would.
abbrev blocked : Store test_http test_files
blocked = record {
  table = two_ids;
  disk = (codes "d/shoes", folder) ∷ (codes "d/shoes/2", folder) ∷ [];
}

abbrev new_shoe : TestRequest
new_shoe = request_of post (codes "/api/shoes") (codes "red")

handle_request-Change_example : Change stock.table (
    table_of test_http test_files
      (handle_request test_http test_files shop new_shoe test_http.new_response stock))
handle_request-Change_example =
    handle_request-Change test_http test_files shop new_shoe test_http.new_response stock

handle_request-AllRising_example : AllRising (
    table_of test_http test_files
      (handle_request test_http test_files shop new_shoe test_http.new_response stock))
handle_request-AllRising_example =
    handle_request-AllRising test_http test_files shop new_shoe test_http.new_response stock
      two_ids-AllRising

lost_post_takes_id_example :
    (s' : Store test_http test_files) × (r' : TestResponse) × (handle_post_request test_http
        test_files shop
        (codes "shoes")
        new_shoe
        test_http.new_response
        blocked
      ≡ returned false s' r')
    × (s'.disk ≡ disk_with_folder test_http test_files shop (codes "shoes") blocked)
    × (member
          (new_id test_http test_files shop (codes "shoes") blocked)
          (ids (codes "shoes") blocked.table)
        ≡ false)
    × (member
          (new_id test_http test_files shop (codes "shoes") blocked)
          (ids (codes "shoes") s'.table)
        ≡ true)
unfolding contains equal to_string get_next_id lowest_from
lost_post_takes_id_example =
    lost_post_takes_id test_http test_files shop (codes "shoes") blocked new_shoe
      test_http.new_response two_ids-AllRising refl refl refl

abbrev created_shoe : TestResponse
created_shoe =
    prepare_created_response test_http (new_id test_http test_files shop (codes "shoes") stock)
      test_http.new_response

abbrev stock_after : Store test_http test_files
stock_after = after_post test_http test_files shop (codes "shoes") stock (codes "red")

post_shoe :
    handle_post_request test_http test_files shop
      (codes "shoes")
      new_shoe
      test_http.new_response
      stock
    ≡ returned true stock_after created_shoe
unfolding contains equal to_string get_next_id lowest_from
post_shoe =
    handle_post_request_created test_http test_files shop (codes "shoes") stock new_shoe
      test_http.new_response refl refl refl

post_creates_example :
    (test_http.status_of created_shoe ≡ created)
    × (test_http.body_of created_shoe
        ≡ codes "Created entry at {\"id\":"
          ++ (to_string (new_id test_http test_files shop (codes "shoes") stock) ++ codes "}\n"))
    × IsNextId
        (codes "shoes")
        two_ids
        (new_id test_http test_files shop (codes "shoes") stock)
        stock_after.table
post_creates_example =
    post_creates test_http-IsHttp test_files shop (codes "shoes") stock new_shoe
      test_http.new_response stock_after created_shoe two_ids-AllRising post_shoe

stock-IsWritable :
    IsWritable test_files
      (new_file test_http test_files shop (codes "shoes") stock)
      (disk_with_folder test_http test_files shop (codes "shoes") stock)
unfolding contains find assign equal to_string get_next_id lowest_from less
stock-IsWritable = record {
  written = λ content. record { whole = refl; text = refl };
  written_is_file = λ content. record { status = refl; here = refl; file = refl };
}

get_after_post_example :
    (r₂ : TestResponse) × (handle_get_request test_http test_files shop
        (codes "shoes"
          ++ (codes "/" ++ to_string (new_id test_http test_files shop (codes "shoes") stock)))
        test_http.new_response
        stock_after
      ≡ returned true stock_after r₂)
    × (test_http.status_of r₂ ≡ ok)
    × (test_http.body_of r₂ ≡ codes "red")
get_after_post_example =
    get_after_post test_http-IsHttp test_files shop (codes "shoes") stock new_shoe
      test_http.new_response stock_after created_shoe test_http.new_response post_shoe
      stock-IsWritable

id_name_is : id_name_of (codes "shoes/2147483648") ≡ codes "2147483648"
unfolding id_name_of find_last_of drop
id_name_is = refl
