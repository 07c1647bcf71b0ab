-- ===== src/Tests/Systems.antt =====
-- The server as it runs, with one client.
use ucla_cs130_googolplex.Prelude.{Bytes, List, codes, equal, [], ◌∷◌, some, ◌≡◌, refl, arith}
use ucla_cs130_googolplex.Std.Dict.{Dict, find, contains, assign}
use ucla_cs130_googolplex.Std.Strings.{find_last_of, take}
use ucla_cs130_googolplex.Config.Arg.{ConfigArg, default_arg}
use ucla_cs130_googolplex.Server.{kind_of, create_dispatcher}
use ucla_cs130_googolplex.Serve.Simple.{handle_echo_request}
use ucla_cs130_googolplex.Http.{get}
use ucla_cs130_googolplex.Server.Routes.{factory_of}
use ucla_cs130_googolplex.Session.Search.{search_addr_binding}
use ucla_cs130_googolplex.Session.Reply.{World, replied, route, zeros, empty_response}
use ucla_cs130_googolplex.Session.Connection.{
  Connection, new_session, start, handle_read, handle_write, Reachable, created, started,
}
use ucla_cs130_googolplex.Session.Conversation.{talk, replies_to, talk-replies_to}
use ucla_cs130_googolplex.Session.Received.{NoZero, outcome_of}
use ucla_cs130_googolplex.Server.System.{
  System, start_accept, handle_accept, Step, accepts, Reach, starts, steps,
}
use ucla_cs130_googolplex.Server.System.Service.{answered, session_served}
use ucla_cs130_googolplex.Tests.Messages.{TestResponse, request_of, test_http}
use ucla_cs130_googolplex.Tests.Disks.{test_files}
use ucla_cs130_googolplex.Tests.Services.{test_service}

abbrev echo_entry : ConfigArg
echo_entry = record default_arg { handler_type = codes "EchoHandler"; location = codes "/" }

abbrev echo_map : Dict ConfigArg
echo_map = (codes "/", echo_entry) ∷ []

abbrev echo_world : World test_http test_files test_service
echo_world = record { routes = (codes "/", factory_of echo_entry) ∷ []; disk = [] }

abbrev at_start : System test_http test_files test_service
at_start = start_accept test_http test_files test_service [] echo_world

abbrev connected : Connection
connected = start (codes "1.1") new_session

abbrev with_client : System test_http test_files test_service
with_client = start_accept test_http test_files test_service (connected ∷ []) echo_world

Reaches : System test_http test_files test_service → Type 0
Reaches = Reach test_http test_files test_service echo_map []

with_client-Reaches : Reaches with_client
unfolding Reaches create_dispatcher equal handle_accept
with_client-Reaches =
    steps (starts ((codes "/", factory_of echo_entry) ∷ []) [] refl)
      (accepts (some (codes "1.1")) refl)

request-NoZero : NoZero (codes "/x")
request-NoZero = (λ e. absurd (omega (arith, e)), (λ e. absurd (omega (arith, e)), tt))

abbrev echoed : TestResponse
echoed =
    (handle_echo_request test_http (request_of get (codes "/x") [])
      (empty_response test_http test_files test_service)).1

answer_x :
    outcome_of {http = test_http} {files = test_files} {service = test_service}
      (codes "1.1")
      (codes "/x")
      echo_world
    ≡ replied echo_world echoed
unfolding route kind_of handle_echo_request search_addr_binding find_last_of contains equal take
    find assign
answer_x = refl

session_served_example :
    (t : System test_http test_files test_service) × Step test_http test_files test_service
      with_client t
    × Step test_http test_files test_service t
        (record with_client { sessions = answered (codes "1.1") (codes "/x") ∷ [] })
unfolding Reaches handle_echo_request
session_served_example =
    session_served echo_map [] with_client [] [] connected (codes "/x") (codes "1.1") echo_world
      echoed with_client-Reaches refl refl request-NoZero (omega arith) answer_x

echo_client-Reachable : Reachable test_http test_files test_service connected echo_world
echo_client-Reachable = started new_session echo_world (codes "1.1") (created echo_world) refl

abbrev two_requests : List Bytes
two_requests = codes "/x" ∷ codes "/y" ∷ []

request_y-NoZero : NoZero (codes "/y")
request_y-NoZero = (λ e. absurd (omega (arith, e)), (λ e. absurd (omega (arith, e)), tt))

talk_two :
    talk test_http test_files test_service two_requests connected echo_world
    ≡ some (codes "/x" ∷ codes "/y" ∷ [], echo_world)
unfolding talk handle_read zeros search_addr_binding find_last_of contains equal take kind_of
    handle_write assign handle_echo_request
talk_two = refl

talk-replies_to_example :
    talk test_http test_files test_service two_requests connected echo_world
    ≡ replies_to test_http test_files test_service (codes "1.1") two_requests echo_world
talk-replies_to_example =
    talk-replies_to two_requests connected echo_world echo_client-Reachable refl
      ((request-NoZero, omega arith), ((request_y-NoZero, omega arith), tt))
