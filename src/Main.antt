-- ===== src/Main.antt =====
-- `main` of src/server_main.cc, up to the start of the threads.
pub mod Start
pub mod Served
pub mod Process
use ucla_cs130_googolplex.Prelude.{
  ℕ, suc, ◌+◌, ◌-◌, ◌%◌, ◌^◌, Bytes, codes, equal, ◌==◌, if◌then◌else◌, Bool, true, false, ◌||◌,
  not, List, [], ◌∷◌, ◌++◌, Option, none, some,
}
use ucla_cs130_googolplex.Prelude.Int.{ℤ, pos, negsuc}
use ucla_cs130_googolplex.Std.Dict.{Dict}
use ucla_cs130_googolplex.Files.{FileSystem}
use ucla_cs130_googolplex.Config.Arg.{ConfigArg, valid_handler_types}
use ucla_cs130_googolplex.Config.Tree.{empty}
use ucla_cs130_googolplex.Config.Parse.{Result}
use ucla_cs130_googolplex.Config.File.{parse_file}
use ucla_cs130_googolplex.Factory.{Factory, made, stopped, raised}
use ucla_cs130_googolplex.Server.{create_dispatcher}

-- `valid_handler_types.find(...) != end()`
unfoldable pub is_among : Bytes → List Bytes → Bool
is_among t [] = false
is_among t (x ∷ xs) = equal x t || is_among t xs

-- The loop over the map: whether every type is valid, and the message of those that are not.
unfoldable pub check_types : Dict ConfigArg → Bool × Bytes
unfolding is_among
check_types [] = (true, [])
check_types ((_, arg) ∷ addrmap) =
    let (valid, msg) = check_types addrmap in
    if is_among arg.handler_type valid_handler_types
    then (valid, msg)
    else (false, codes "handler type " ++ (arg.handler_type ++ (codes " invalid; " ++ msg)))

-- The loop over the valid types.
list_types : List Bytes → Bytes
list_types [] = codes "\n"
list_types (x ∷ xs) = x ++ (codes " " ++ list_types xs)

-- What the endpoint makes of the port: the `int` is passed as a `short`, and that as an
-- `unsigned short`, each of 16 bits.
unfoldable pub endpoint_port : ℤ → ℕ
endpoint_port (pos n) = n % 2 ^ 16
endpoint_port (negsuc n) = 2 ^ 16 - suc (n % 2 ^ 16)

-- The port on which connections are accepted, the routes and the disk where the server runs;
-- otherwise what ends the process: the number of the arguments, the handler types with a message, an
-- exception that `main` catches, a factory, or undefined behaviour.
pub data Startup (Disk : Type 0) : Type 0 where
  listening : ℕ → Dict Factory → Disk → Startup Disk
  wrong_usage : Startup Disk
  invalid_handlers : Bytes → Startup Disk
  caught exited undefined_behaviour out_of_fuel : Startup Disk

-- `bind` gives the port on which an acceptor for a port listens, which for 0 is one that the operating
-- system chooses, or nothing where the acceptor cannot be opened.
module _ (files : FileSystem) (bind : ℕ → Option ℕ) where
  open files use {Disk}

  -- The constructor of `server`: the acceptor comes before the routes, and `main` catches what is thrown.
  unfoldable pub new_server : ℤ → Dict ConfigArg → Disk → Startup Disk
  unfolding create_dispatcher endpoint_port
  new_server port addrmap d = elim (bind (endpoint_port port)) [
    | none ↦ caught
    | some local_port ↦ elim (create_dispatcher files addrmap d) [
      | made (routes, d') ↦ listening local_port routes d'
      | stopped ↦ exited
      | raised ↦ caught
    ]
  ]

  -- The result of `Parse` is not looked at: what it left in `port` and `addrmap` is.
  unfoldable pub start_with : ℤ → Dict ConfigArg → Disk → Startup Disk
  unfolding new_server check_types list_types
  start_with port addrmap d =
      let (valid, msg) = check_types addrmap in
      if not valid
      then invalid_handlers (
          msg
          ++ (codes "Server only accepts the handler types: " ++ list_types valid_handler_types))
      else new_server port addrmap d

  unfoldable pub main : ℕ → Bytes → Disk → Startup Disk
  unfolding start_with parse_file
  main argc file_name d =
      if not (argc == 2)
      then wrong_usage
      else elim (parse_file files file_name empty (negsuc 0) [] d) [
        | Result.returned _ s ↦ start_with s.port s.addrmap d
        | Result.undefined_behaviour ↦ undefined_behaviour
        | Result.out_of_fuel ↦ out_of_fuel
      ]
