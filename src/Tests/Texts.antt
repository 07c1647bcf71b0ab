-- ===== src/Tests/Texts.antt =====
-- The text generator at a concrete disk.
use ucla_cs130_googolplex.Prelude.{Bytes, codes, equal, true, [], ◌∷◌, some, ◌≡◌, refl, sym, arith}
use ucla_cs130_googolplex.Std.Dict.{find, contains, assign, less}
use ucla_cs130_googolplex.Std.Strings.{pop_back_while}
use ucla_cs130_googolplex.Http.{get, post, delete, ok, content_type}
use ucla_cs130_googolplex.Handler.{Handler, create_dir, write_to_file}
use ucla_cs130_googolplex.TextGen.Input.{
  Post, parse_post_body, replace_space, dot2underscore, check_prompts_validity,
  check_title_validity, all_of, in_prompt, in_title,
}
use ucla_cs130_googolplex.TextGen.{
  returned, parse_raw_output, handle_post_request, handle_get_request, handle_delete_request,
}
use ucla_cs130_googolplex.TextGen.Posting.{IsPrompt, IsTitle, asked, Stored, accepted_post-Stored}
use ucla_cs130_googolplex.TextGen.Curl.{received}
use ucla_cs130_googolplex.TextGen.Escape.{NoPercent, escape_space}
use ucla_cs130_googolplex.TextGen.Reading.{IsJson, IsStorable, get_after_text_post}
use ucla_cs130_googolplex.TextGen.Removal.{delete_removes}
use ucla_cs130_googolplex.Tests.Messages.{
  TestRequest, TestResponse, test_http, test_http-IsHttp, request_of,
}
use ucla_cs130_googolplex.Tests.Disks.{folder, file, test_files}
use ucla_cs130_googolplex.Tests.Services.{test_service}

abbrev writer : Handler
writer = record { client_ip = codes "1.2"; prefix = codes "/text"; dir = codes "t" }

abbrev tale : TestRequest
tale = request_of post (codes "/text") (codes "title=tale&prompt=cat")

abbrev told : TestResponse
told =
    test_http.set content_type (codes "text/plain")
      (test_http.set_body (codes "once") (test_http.result ok test_http.new_response))

abbrev with_tale : test_files.Disk
with_tale = (codes "t/1_2", folder) ∷ (codes "t/1_2/tale", file (codes "{}")) ∷ []

post_tale :
    handle_post_request test_http test_files test_service writer [] tale test_http.new_response
      ((codes "t/1_2", folder) ∷ [])
    ≡ returned true with_tale told
unfolding handle_post_request parse_post_body equal less check_prompts_validity all_of in_prompt
    check_title_validity in_title create_dir dot2underscore write_to_file
post_tale = refl

accepted_post-Stored_example :
    (p : Post) × (output : Bytes) × (parse_post_body test_http (codes "title=tale&prompt=cat")
      ≡ some p)
    × IsPrompt p.prompt
    × IsTitle p.title
    × (parse_raw_output test_http test_files test_service
          (received (test_service.easy_perform (asked [] p.prompt)) [])
        ≡ some output)
    × Stored test_http-IsHttp test_files test_service writer [] tale test_http.new_response
        ((codes "t/1_2", folder) ∷ [])
        p
        output
        with_tale
        told
accepted_post-Stored_example =
    accepted_post-Stored test_http-IsHttp test_files test_service writer [] tale
      test_http.new_response ((codes "t/1_2", folder) ∷ []) with_tale told post_tale

-- A url that leaves the folder of the client.
abbrev other_tale : TestRequest
other_tale = request_of delete (codes "/text/../3_4/tale") []

abbrev two_clients : test_files.Disk
two_clients = (codes "t/1_2", folder) ∷ (codes "t/1_2/../3_4/tale", file (codes "{}")) ∷ []

delete_removes_example :
    (r' : TestResponse) × (handle_delete_request test_http test_files test_service writer other_tale
        test_http.new_response two_clients
      ≡ returned true ((codes "t/1_2", folder) ∷ []) r')
    × (test_http.status_of r' ≡ ok)
    × (test_http.body_of r' ≡ codes "{}")
unfolding replace_space dot2underscore find contains equal pop_back_while
delete_removes_example =
    delete_removes test_http-IsHttp test_files test_service writer other_tale test_http.new_response
      two_clients ((codes "t/1_2", folder) ∷ []) b'.' (codes "./3_4/tale") (codes "{}") refl
      (record { status = refl; here = refl; folder = refl }) refl refl refl refl

abbrev read_tale : TestRequest
read_tale = request_of get (codes "/text/tale") []

abbrev tale_post : Post
tale_post = record { title = codes "tale"; prompt = codes "cat" }

test_service-IsJson : IsJson test_service
test_service-IsJson = record { parse_json-dump = λ j t e. sym e }

tale-IsStorable :
    IsStorable test_files (codes "t/1_2") (codes "t/1_2/tale") ((codes "t/1_2", folder) ∷ [])
unfolding find contains equal less assign
tale-IsStorable = record {
  written = λ content. record { whole = refl; text = refl };
  written_status = λ content. refl;
  written_is_file = λ content. refl;
  folder_is_directory = λ content. record { status = refl; here = refl; folder = refl };
}

text-NoPercent : NoPercent (codes "/text")
text-NoPercent = (
  λ e. absurd (omega (arith, e)),
  (
    λ e. absurd (omega (arith, e)),
    (
      λ e. absurd (omega (arith, e)),
      (λ e. absurd (omega (arith, e)), (λ e. absurd (omega (arith, e)), tt)),
    ),
  ),
)

get_after_text_post_example :
    (r₂ : TestResponse) × (handle_get_request test_http test_files test_service writer read_tale
        test_http.new_response with_tale
      ≡ returned true with_tale r₂)
    × (test_http.status_of r₂ ≡ ok)
    × (test_http.body_of r₂ ≡ codes "{}")
    × (test_http.field_of content_type r₂ ≡ some (codes "application/json"))
unfolding parse_post_body create_dir dot2underscore equal less escape_space find contains
get_after_text_post_example =
    get_after_text_post test_http-IsHttp test_files test_service test_service-IsJson writer [] tale
      read_tale test_http.new_response told test_http.new_response ((codes "t/1_2", folder) ∷ [])
      with_tale tale_post (codes "{}") post_tale refl tale-IsStorable text-NoPercent refl refl
