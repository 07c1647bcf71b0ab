-- ===== src/Tests/Routes.antt =====
-- Which location and which key a url stands for, at concrete urls.
use mathlib.Core.Bool.{true≢false}
use ucla_cs130_googolplex.Factory.{Factory, made}
use ucla_cs130_googolplex.Prelude.{
  inl, inr, arith, none, ℕ, Bytes, codes, equal, ap, ◌==◌, [], ◌∷◌, Bool, true, false, ◌≡◌, refl,
}
use ucla_cs130_googolplex.Std.Dict.{Dict, contains, find}
use ucla_cs130_googolplex.Std.Strings.{find_last_of, take}
use ucla_cs130_googolplex.Session.Search.{found, not_found, search_addr_binding}
use ucla_cs130_googolplex.Session.Search.Longest.{Answers, search_addr_binding-Answers}
use ucla_cs130_googolplex.Session.Routing.{routed_url_accepted, root_location_refused}
use ucla_cs130_googolplex.Config.Arg.{ConfigArg, default_arg}
use ucla_cs130_googolplex.Server.{kind_of, create_dispatcher}
use ucla_cs130_googolplex.Server.Routes.{routed, create_dispatcher_returns}
use ucla_cs130_googolplex.Tests.Disks.{folder, test_files}
use ucla_cs130_googolplex.Handler.{Handler, check_request_url}
use ucla_cs130_googolplex.Handler.Url.{check_request_url-prefix}

abbrev locations : Dict ℕ
locations = (codes "/", 0) ∷ (codes "/api", 1) ∷ (codes "/api/shoes", 2) ∷ []

search_addr_binding_longest :
    search_addr_binding (codes "/api/shoes/3/") locations ≡ found (codes "/api/shoes")
unfolding search_addr_binding find_last_of contains equal take
search_addr_binding_longest = refl

search_addr_binding_root : search_addr_binding (codes "/apis/") locations ≡ found (codes "/")
unfolding search_addr_binding find_last_of contains equal take
search_addr_binding_root = refl

search_addr_binding_nothing : search_addr_binding (codes "apis") locations ≡ not_found
unfolding search_addr_binding find_last_of contains equal take
search_addr_binding_nothing = refl

search_addr_binding-Answers_example :
    Answers locations
      (codes "/api/shoes/3/")
      (search_addr_binding (codes "/api/shoes/3/") locations)
search_addr_binding-Answers_example = search_addr_binding-Answers locations (codes "/api/shoes/3/")

abbrev api : Handler
api = record { client_ip = codes "127.0.0.1"; prefix = codes "/api"; dir = codes "data" }

check_request_url-prefix_example : check_request_url api (codes "/api") false ≡ (true, [])
check_request_url-prefix_example = check_request_url-prefix api false

abbrev is_long : Bytes → Bool
is_long (_ ∷ _ ∷ _) = true
is_long _ = false

-- Whether there are more than five bytes.
abbrev is_longer : Bytes → Bool
is_longer (_ ∷ _ ∷ _ ∷ _ ∷ _ ∷ _ ∷ _) = true
is_longer _ = false

abbrev starts_with_i : Bytes → Bool
starts_with_i (_ ∷ c ∷ _) = c == b'i'
starts_with_i _ = false

routed_url_accepted_example : (check_request_url api (codes "/api/hats") false).0 ≡ true
unfolding search_addr_binding find_last_of contains equal take
routed_url_accepted_example =
    routed_url_accepted api (codes "/api/hats") false locations refl
      (λ e. true≢false (ap is_long e)) (λ e. absurd (true≢false (ap is_longer e)))

abbrev root_handler : Handler
root_handler = record { client_ip = codes "127.0.0.1"; prefix = codes "/"; dir = codes "data" }

root_location_refused_example : check_request_url root_handler (codes "/index") true ≡ (false, [])
root_location_refused_example =
    root_location_refused root_handler (codes "/index") true b'i' (codes "ndex") refl refl
      (λ e. absurd (omega (arith, e)))

abbrev crud_folder : test_files.Disk
crud_folder = (codes "data", folder) ∷ []

abbrev entries : Dict ConfigArg
entries =
    (
      codes "/api",
      record default_arg {
        handler_type = codes "CrudHandler";
        location = codes "/api";
        root = codes "data";
      },
    )
    ∷ (
      codes "/echo",
      record default_arg { handler_type = codes "EchoHandler"; location = codes "/echo" },
    )
    ∷ (
      codes "/other",
      record default_arg { handler_type = codes "Unknown"; location = codes "/other" },
    )
    ∷ []

create_dispatcher_returns_example :
    (routes : Dict Factory) × (create_dispatcher test_files entries crud_folder
      ≡ made (routes, crud_folder))
    × ((l : Bytes) → find l routes ≡ routed (find l entries) none)
unfolding contains equal kind_of find
create_dispatcher_returns_example =
    create_dispatcher_returns test_files entries crud_folder (refl, (refl, (refl, tt)))
      (
        inr (record { status = refl; here = refl; folder = refl }),
        (inl (λ e. absurd (ground arith)), (inl (λ e. absurd (ground arith)), tt)),
      )
