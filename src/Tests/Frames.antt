-- ===== src/Tests/Frames.antt =====
-- What a request to the crud handler changes and leaves alone, at concrete stores.
use ucla_cs130_googolplex.Prelude.{
  ℕ, Bytes, codes, equal, equal_iff, not-equal, length, List, All, true, [], ◌∷◌, ap, some, ◌≡◌,
  ◌≢◌, refl, sym, ◌∙◌, arith,
}
use ucla_cs130_googolplex.Std.Dict.{find, contains, assign, less, find-assign}
use ucla_cs130_googolplex.Std.Number
use ucla_cs130_googolplex.Crud
use ucla_cs130_googolplex.Std.Strings
use ucla_cs130_googolplex.Std.Strings.{find_last_of, pop_back_while, drop, take}
use ucla_cs130_googolplex.Http.{get, post, put, delete, ok}
use ucla_cs130_googolplex.Files.{IsWritable}
use ucla_cs130_googolplex.Handler.{Handler, check_request_url, create_dir, write_to_file}
use ucla_cs130_googolplex.Crud.Responses.{prepare_created_response}
use ucla_cs130_googolplex.Crud.Putting.{disk_for_put}
use ucla_cs130_googolplex.Crud.{Store, returned, handle_request, entity_of}
use ucla_cs130_googolplex.Crud.Frame.{IsApart, handle_request_keeps}
use ucla_cs130_googolplex.Crud.Frame.Disks.{disk_of}
use ucla_cs130_googolplex.Crud.Lasting.{look_at, IsElsewhere, handle_all, put_lasts}
use ucla_cs130_googolplex.Crud.Ids.Tables.{AllRising}
use ucla_cs130_googolplex.Crud.Invariant.{table_of}
use ucla_cs130_googolplex.Crud.Known.{known, Effect}
use ucla_cs130_googolplex.Crud.Refinement.{succeeded, handle_request-Effect}
use ucla_cs130_googolplex.Tests.Messages.{
  TestRequest, TestResponse, test_http, test_http-IsHttp, request_of,
}
use ucla_cs130_googolplex.Tests.Disks.{Node, file, folder, content_of, without, test_files}

find-without : (p q : Bytes) (d : test_files.Disk) → p ≢ q → find q (without p d) ≡ find q d
unfolding find
find-without p q [] ne = refl
find-without p q ((name, node) ∷ d) ne =
    ground (arith, equal_iff name p, equal_iff name q, find-without p q d ne)

find-assign_other :
    (p q : Bytes) (node : Node) (d : test_files.Disk) → p ≢ q → find q (assign p node d) ≡ find q d
find-assign_other p q node d ne = find-assign p q node d ∙ rw (not-equal p q ne) refl

-- A look at a file sees what `find` gives.
find-IsApart :
    {A : Type 0} (p q : Bytes) (look : test_files.Disk → A)
    → ((d d' : test_files.Disk) → find q d' ≡ find q d → look d' ≡ look d)
    → p ≢ q
    → IsApart test_files p look
find-IsApart p q look same ne = record {
  create_apart = λ d d' e.
      let made : assign p folder d ≡ d' = ground arith in
      same d d' (ap (find q) (sym made) ∙ find-assign_other p q folder d ne);
  write_apart = λ content d. same d _ (find-assign_other p q (file content) d ne);
  remove_apart = λ d d' e.
      let gone : without p d ≡ d' = ground arith in
      same d d' (ap (find q) (sym gone) ∙ find-without p q d ne);
}

test_files-IsApart : (p q : Bytes) → p ≢ q → IsApart test_files p (test_files.read q)
test_files-IsApart p q = find-IsApart p q (test_files.read q) (λ d d' e. ap content_of e)

look_at-IsApart : (p q : Bytes) → p ≢ q → IsApart test_files p (look_at test_files q)
unfolding contains
look_at-IsApart p q = find-IsApart p q (look_at test_files q) (λ d d' e. rw (e, contains) refl)

abbrev store : Store test_http test_files
store = record { table = []; disk = (codes "x", file (codes "kept")) ∷ (codes "d", folder) ∷ [] }

abbrev crud : Handler
crud = record { client_ip = codes "127.0.0.1"; prefix = codes "/api"; dir = codes "d" }

abbrev put_shoe : TestRequest
put_shoe = request_of put (codes "/api/shoes/1") (codes "red")

abbrev first_of : Bytes → ℕ
first_of [] = 0
first_of (c ∷ _) = c

below_d-IsApart : (rest : Bytes) → IsApart test_files (b'd' ∷ rest) (test_files.read (codes "x"))
below_d-IsApart rest =
    test_files-IsApart (b'd' ∷ rest) (codes "x") (λ e. absurd (omega (arith, ap first_of e)))

handle_request_keeps_example :
    test_files.read
      (codes "x")
      (disk_of (handle_request test_http test_files crud put_shoe test_http.new_response store))
    ≡ some (codes "kept")
unfolding find equal
handle_request_keeps_example =
    handle_request_keeps test_http test_files crud (test_files.read (codes "x")) put_shoe
      test_http.new_response store
      (record {
        entity = below_d-IsApart _;
        itself = below_d-IsApart _;
        numbered = λ id. below_d-IsApart _;
      })

abbrev shoes : Store test_http test_files
shoes = record {
  table = (codes "shoes", 1 ∷ 3 ∷ []) ∷ [];
  disk = (codes "d/shoes", folder) ∷ (codes "d/shoes/3", file (codes "red")) ∷ [];
}

abbrev delete_shoe : TestRequest
delete_shoe = request_of delete (codes "/api/shoes/3") []

-- The DELETE succeeds.
delete_shoe_succeeds :
    succeeded test_http test_files crud
      (handle_request test_http test_files crud delete_shoe test_http.new_response shoes)
    ≡ true
unfolding handle_request check_request_url Strings.find pop_back_while drop contains equal
    Crud.handle_delete_request Number.stoi Crud.id_name_of find_last_of entity_of take
delete_shoe_succeeds = refl

shoes-AllRising : AllRising shoes.table
shoes-AllRising = (((omega arith, tt), (tt, tt)), tt)

handle_request-Effect_example :
    Effect delete
      (succeeded test_http test_files crud
        (handle_request test_http test_files crud delete_shoe test_http.new_response shoes))
      (codes "shoes/3")
      (known shoes.table)
      (known (
        table_of test_http test_files
          (handle_request test_http test_files crud delete_shoe test_http.new_response shoes)))
unfolding check_request_url Strings.find pop_back_while drop
handle_request-Effect_example =
    handle_request-Effect test_http test_files crud delete_shoe test_http.new_response shoes
      shoes-AllRising

-- A file that is put, two requests for others, and a GET.
abbrev two_shoes : List (TestRequest × TestResponse)
two_shoes =
    (request_of put (codes "/api/shoes/2") (codes "blue"), test_http.new_response)
    ∷ (request_of post (codes "/api/hats") (codes "green"), test_http.new_response)
    ∷ []

abbrev shoe : Bytes
shoe = codes "d/shoes/1"

two_shoes-IsElsewhere : All (IsElsewhere test_http test_files crud shoe) two_shoes
unfolding equal entity_of find_last_of check_request_url Strings.find pop_back_while drop take
two_shoes-IsElsewhere = (
  record {
    entity = look_at-IsApart (codes "d/shoes") shoe (λ e. absurd (omega (arith, ap length e)));
    itself = look_at-IsApart (codes "d/shoes/2") shoe (λ e. absurd (ground arith));
    numbered = λ id. look_at-IsApart _ shoe (λ e. absurd (omega (arith, ap length e)));
  },
  (
    record {
      entity = look_at-IsApart _ shoe (λ e. absurd (ground arith));
      itself = look_at-IsApart _ shoe (λ e. absurd (ground arith));
      numbered = λ id. look_at-IsApart _ shoe (λ e. absurd (ground arith));
    },
    tt,
  ),
)

-- What the PUT leaves.
abbrev with_shoe : Store test_http test_files
with_shoe = record {
  table = (codes "shoes", 1 ∷ []) ∷ [];
  disk =
      (codes "d/shoes", folder)
      ∷ (codes "d/shoes/1", file (codes "red"))
      ∷ (codes "x", file (codes "kept"))
      ∷ (codes "d", folder)
      ∷ [];
}

abbrev created_shoe : TestResponse
created_shoe = prepare_created_response test_http 1 test_http.new_response

shoe_put :
    handle_request test_http test_files crud put_shoe test_http.new_response store
    ≡ returned true with_shoe created_shoe
unfolding handle_request check_request_url Strings.find Crud.handle_put_request Crud.id_name_of
    find_last_of pop_back_while drop Crud.all_digits Number.is_digit Crud.id_of Number.stoi contains
    create_dir equal write_to_file assign less take find entity_of
shoe_put = refl

shoe-IsWritable :
    IsWritable test_files shoe (disk_for_put test_http test_files crud (codes "shoes/1") store)
unfolding find assign contains create_dir equal less entity_of find_last_of take
shoe-IsWritable = record {
  written = λ content. record { whole = refl; text = refl };
  written_is_file = λ content. record { status = refl; here = refl; file = refl };
}

put_lasts_example :
    (r : TestResponse) × (handle_request test_http test_files crud
        (request_of get (codes "/api/shoes/1") [])
        test_http.new_response
        (handle_all test_http test_files crud two_shoes with_shoe)
      ≡ returned true (handle_all test_http test_files crud two_shoes with_shoe) r)
    × (test_http.status_of r ≡ ok)
    × (test_http.body_of r ≡ codes "red")
unfolding check_request_url Strings.find pop_back_while drop
put_lasts_example =
    put_lasts test_http-IsHttp test_files crud (codes "shoes/1") store with_shoe put_shoe
      test_http.new_response created_shoe two_shoes (request_of get (codes "/api/shoes/1") [])
      test_http.new_response refl refl shoe_put shoe-IsWritable two_shoes-IsElsewhere refl refl
