-- ===== src/Tests/Reads.antt =====
-- A session at concrete reads.
use ucla_cs130_googolplex.Prelude.{
  ℕ, zero, suc, Bytes, codes, length, [], ◌∷◌, some, ◌≡◌, refl, arith,
}
use ucla_cs130_googolplex.Session.Reply.{World, max_length, undefined_behaviour}
use ucla_cs130_googolplex.Session.Connection.{
  Connection, new_session, start, answer, fails, handle_read, Reachable, created, started,
}
use ucla_cs130_googolplex.Session.Received.{
  NoZero, outcome_of, handle_read-received, handle_read-full,
}
use ucla_cs130_googolplex.Tests.Messages.{test_http}
use ucla_cs130_googolplex.Tests.Disks.{test_files}
use ucla_cs130_googolplex.Tests.Services.{test_service}

abbrev no_routes : World test_http test_files test_service
no_routes = record { routes = []; disk = [] }

abbrev client : Connection
client = start (codes "127.0.0.1") new_session

client-Reachable : Reachable test_http test_files test_service client no_routes
client-Reachable = started new_session no_routes (codes "127.0.0.1") (created no_routes) refl

short-NoZero : NoZero (codes "GET")
short-NoZero = (
  λ e. absurd (omega (arith, e)),
  (λ e. absurd (omega (arith, e)), (λ e. absurd (omega (arith, e)), tt)),
)

handle_read-received_example :
    handle_read test_http test_files test_service (some (codes "GET")) client no_routes
    ≡ answer test_http test_files test_service client (
        outcome_of {http = test_http} {files = test_files} {service = test_service}
          (codes "127.0.0.1")
          (codes "GET")
          no_routes)
handle_read-received_example =
    handle_read-received client no_routes (codes "GET") client-Reachable short-NoZero (omega arith)

-- A text of n letters.
letters : ℕ → Bytes
letters zero = []
letters (suc n) = b'a' ∷ letters n

letters-NoZero : (n : ℕ) → NoZero (letters n)
unfolding letters
letters-NoZero zero = tt
letters-NoZero (suc n) = (λ e. absurd (omega (arith, e)), letters-NoZero n)

length-letters : (n : ℕ) → length (letters n) ≡ n
unfolding letters
length-letters zero = refl
length-letters (suc n) = omega (arith, length-letters n)

handle_read-full_example :
    handle_read test_http test_files test_service (some (letters max_length)) client no_routes
    ≡ fails undefined_behaviour
handle_read-full_example =
    handle_read-full client no_routes (letters max_length) client-Reachable
      (letters-NoZero max_length) (length-letters max_length)
