-- ===== src/Main/Process.antt =====
-- The process of src/server_main.cc: `main` with its signal handler, and the server that it starts, up to
-- the end of the process.
--
-- A signal is handled between two callbacks. That a callback of another thread runs beside `exit` is not
-- modelled.
pub mod Origin
pub mod Failing
pub mod Paged
pub mod Endings
use ucla_cs130_googolplex.Prelude.{
  ℕ, Bytes, ◌==◌, if◌then◌else◌, Bool, true, false, List, [], ◌∷◌, ◌++◌, Option, none, some, ◌≡◌,
}
use ucla_cs130_googolplex.Http.{Http}
use ucla_cs130_googolplex.Files.{FileSystem}
use ucla_cs130_googolplex.TextGen.Api
use ucla_cs130_googolplex.Session.Reply.{Outcome, replied, threw_out, exited, undefined_behaviour}
use ucla_cs130_googolplex.Session.Connection.{Connection, reading, fails, handle_read}
use ucla_cs130_googolplex.Server.System.{System, start_accept, Step}
use ucla_cs130_googolplex.Main.{Startup, listening, wrong_usage, invalid_handlers, caught, main}

-- The signals that `main` handles.
pub data Signal : Type 0 where
  sigint sigalrm sigterm : Signal

-- How a process ends: with a status, or by an exception that no one catches. The behaviour may also be
-- undefined, and `out_of_fuel` stands for a `main` that does not come to an end.
pub data End : Type 0 where
  exits : ℕ → End
  terminated undefined out_of_fuel : End

-- `number` gives the signals their numbers.
module _ (number : Signal → ℕ) where
  -- `signalHandler`
  unfoldable pub signal_handler : Signal → End
  signal_handler signum = exits (number signum)

module _ (http : Http) (files : FileSystem) (service : Api.Service) where
  open files use {Disk}

  -- Before `main` has come to the server, while the threads of the server run, and behind the end.
  pub data Process : Type 0 where
    starting : Process
    running : System http files service → Process
    over : End → Process

  -- `start` joins its threads, which have work as long as the server accepts. Without threads it
  -- returns, the server is stopped and `main` returns.
  unfoldable pub run : ℕ → System http files service → Process
  run n_threads s = if n_threads == 0 then over (exits 0) else running s

  -- The rest of `main`, on as many threads as `hardware_concurrency` says.
  unfoldable pub launched : ℕ → Startup Disk → Process
  unfolding run
  launched concurrency (listening port routes d) =
      run concurrency (start_accept http files service [] (record { routes = routes; disk = d }))
  launched concurrency wrong_usage = over (exits 1)
  launched concurrency (invalid_handlers error_msg) = over (exits 1)
  launched concurrency caught = over (exits 0)
  launched concurrency Startup.exited = over (exits 1)
  launched concurrency Startup.undefined_behaviour = over undefined
  launched concurrency Startup.out_of_fuel = over out_of_fuel

  -- What a callback that does not come back does to the process. A thread has no handler for an
  -- exception.
  unfoldable pub end_of : Outcome http files service → Option End
  end_of (replied w r) = none
  end_of (threw_out w) = some terminated
  end_of exited = some (exits 1)
  end_of undefined_behaviour = some undefined

  unfoldable pub is_over : Process → Bool
  is_over starting = false
  is_over (running s) = false
  is_over (over e) = true

  module _ (bind : ℕ → Option ℕ) (concurrency : ℕ) (number : Signal → ℕ) (argc : ℕ)
      (file_name : Bytes) (d : Disk) where
    -- The start of the server, a callback, one that fails, or a signal.
    pub data Move (p q : Process) : Type 0 where
      begins : p ≡ starting → q ≡ launched concurrency (main files bind argc file_name d) → Move p q
      calls :
          (s t : System http files service)
          → p ≡ running s
          → Step http files service s t
          → q ≡ running t
          → Move p q
      breaks :
          (s : System http files service) (before after : List Connection) (c : Connection)
          (received : Bytes) (o : Outcome http files service) (e : End)
          → p ≡ running s
          → s.sessions ≡ before ++ c ∷ after
          → c.phase ≡ reading
          → handle_read http files service (some received) c s.world ≡ fails o
          → end_of o ≡ some e
          → q ≡ over e
          → Move p q
      interrupted :
          (signum : Signal) → is_over p ≡ false → q ≡ over (signal_handler number signum) → Move p q

    pub data Reached : Process → Type 0 where
      starts : Reached starting
      moves : {p q : Process} → Reached p → Move p q → Reached q
