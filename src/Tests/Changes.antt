-- ===== src/Tests/Changes.antt =====
-- A DELETE at the crud handler, at a concrete table and disk.
use ucla_cs130_googolplex.Prelude.{codes, equal, true, [], ◌∷◌, some, ◌≡◌, refl}
use ucla_cs130_googolplex.Prelude.Int.{pos}
use ucla_cs130_googolplex.Std.Dict.{Dict, contains, assign}
use ucla_cs130_googolplex.Std.Number.{value, stoi}
use ucla_cs130_googolplex.Std.Strings.{find_last_of, take, drop}
use ucla_cs130_googolplex.Http.{ok, content_type}
use ucla_cs130_googolplex.Handler.{Handler}
use ucla_cs130_googolplex.Crud.{Store, returned, handle_delete_request, entity_of, id_name_of}
use ucla_cs130_googolplex.Crud.Ids.{Table, ids, erase_id}
use ucla_cs130_googolplex.Crud.Removal.{Removes, handle_delete_request-Removes}
use ucla_cs130_googolplex.Tests.Messages.{TestResponse, test_http, test_http-IsHttp}
use ucla_cs130_googolplex.Tests.Disks.{Node, folder, file, test_files}

abbrev shop : Handler
shop = record { client_ip = codes "127.0.0.1"; prefix = codes "/api"; dir = codes "d" }

abbrev with_file : Table → Dict Node → Store test_http test_files
with_file table d = record { table = table; disk = (codes "d/shoes", folder) ∷ d }

abbrev before : Store test_http test_files
before =
    with_file ((codes "shoes", 1 ∷ 3 ∷ []) ∷ []) ((codes "d/shoes/3", file (codes "blue")) ∷ [])

abbrev after_delete : Store test_http test_files
after_delete = with_file ((codes "shoes", 1 ∷ []) ∷ []) []

abbrev deleted : TestResponse
deleted =
    test_http.set_body (codes "Successfully deleted file at /shoes.\n")
      (test_http.set content_type (codes "text/plain") (test_http.result ok test_http.new_response))

delete_three :
    handle_delete_request test_http test_files shop (codes "shoes/3") test_http.new_response before
    ≡ returned true after_delete deleted
unfolding handle_delete_request contains equal stoi id_name_of find_last_of drop entity_of take
    assign erase_id ids
delete_three = refl

three_spelled : stoi (id_name_of (codes "shoes/3")) ≡ value (pos 3)
unfolding stoi id_name_of find_last_of drop
three_spelled = refl

handle_delete_request-Removes_example :
    (test_http.status_of deleted ≡ ok)
    × (test_files.remove (codes "d/shoes/3") before.disk ≡ some after_delete.disk)
    × Removes (entity_of (codes "shoes/3")) 3 before.table after_delete.table
handle_delete_request-Removes_example =
    handle_delete_request-Removes test_http-IsHttp test_files shop (codes "shoes/3") before
      after_delete test_http.new_response deleted 3 three_spelled delete_three
