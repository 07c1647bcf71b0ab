-- ===== src/Server/System.antt =====
-- `server` of src/server.cc as it runs: the session that waits for a connection, those that were accepted,
-- and what they share, between the callbacks that the threads of `start` run.
--
-- A callback is one step here. Several threads run them in any order; that two callbacks touch the same
-- table at once is not modelled.
pub mod Runs
pub mod Entries
pub mod Service
use ucla_cs130_googolplex.Prelude.{Bytes, Bool, List, [], ◌∷◌, ◌++◌, Option, none, some, ◌≡◌}
use ucla_cs130_googolplex.Std.Dict.{Dict}
use ucla_cs130_googolplex.Http.{Http}
use ucla_cs130_googolplex.Files.{FileSystem}
use ucla_cs130_googolplex.Config.Arg.{ConfigArg}
use ucla_cs130_googolplex.Factory.{Factory}
use ucla_cs130_googolplex.TextGen.Api
use ucla_cs130_googolplex.Factory.{made}
use ucla_cs130_googolplex.Server.{create_dispatcher}
use ucla_cs130_googolplex.Session.Reply.{World}
use ucla_cs130_googolplex.Session.Connection.{
  Connection, new_session, start, reading, writing, waits, handle_read, handle_write,
}

module _ (http : Http) (files : FileSystem) (service : Api.Service) where
  open files use {Disk}

  pub record System : Type 0 where
    -- the `new_session` of `start_accept`
    pub pending : Connection
    pub sessions : List Connection
    pub world : World http files service

  -- `start_accept`
  abbrev pub start_accept : List Connection → World http files service → System
  start_accept sessions w = record { pending = new_session; sessions = sessions; world = w }

  -- `handle_accept`, with the address of the peer; `none` is an error, and the session is deleted.
  unfoldable pub handle_accept : Option Bytes → System → System
  handle_accept (some address) s = start_accept (start address s.pending ∷ s.sessions) s.world
  handle_accept none s = start_accept s.sessions s.world

  -- One callback of the acceptor or of a session.
  pub data Step (s t : System) : Type 0 where
    accepts : (address : Option Bytes) → t ≡ handle_accept address s → Step s t
    reads :
        (before after : List Connection) (c c' : Connection) (received : Option Bytes)
        (w : World http files service)
        → s.sessions ≡ before ++ c ∷ after
        → c.phase ≡ reading
        → handle_read http files service received c s.world ≡ waits c' w
        → t ≡ record s { sessions = before ++ c' ∷ after; world = w }
        → Step s t
    writes :
        (before after : List Connection) (c : Connection) (error : Bool) (address : Bytes)
        → s.sessions ≡ before ++ c ∷ after
        → c.phase ≡ writing
        → t ≡ record s {
          sessions = before ++ handle_write http files service error address c ∷ after;
        }
        → Step s t

  -- The states of the server that is started on a map and a disk.
  pub data Reach (addrmap : Dict ConfigArg) (d : Disk) : System → Type 0 where
    starts :
        (routes : Dict Factory) (d' : Disk)
        → create_dispatcher files addrmap d ≡ made (routes, d')
        → Reach addrmap d (start_accept [] (record { routes = routes; disk = d' }))
    steps : {s t : System} → Reach addrmap d s → Step s t → Reach addrmap d t
