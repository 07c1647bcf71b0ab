-- ===== src/Server/System/Runs.antt =====
-- The states that the server of src/server.cc reaches.
use ucla_cs130_googolplex.Prelude.{
  Bytes, All, All-append, All-map, All-middle, List, [], ◌∷◌, ◌++◌, ap, Option, none, some, ◌≡◌,
  refl, sym, subst, ◌∙◌, inl, inr, arith,
}
use ucla_cs130_googolplex.Std.Dict.{Dict, assign, All-assign}
use ucla_cs130_googolplex.Http.{Http}
use ucla_cs130_googolplex.Files.{FileSystem}
use ucla_cs130_googolplex.Config.Arg.{ConfigArg}
use ucla_cs130_googolplex.Factory.{Factory}
use ucla_cs130_googolplex.Crud.Ids.Tables.{AllRising}
use ucla_cs130_googolplex.TextGen.Api
use ucla_cs130_googolplex.Server.{kind_of, dispatch_into, create_dispatcher}
use ucla_cs130_googolplex.Factory.{made}
use ucla_cs130_googolplex.Server.Routes.{factory_of, construct-cases, dispatch_into-cons}
use ucla_cs130_googolplex.Session.Reply.{World}
use ucla_cs130_googolplex.Session.Worlds.{handle_read-Leaves}
use ucla_cs130_googolplex.Session.Tables.{RoutesRising, HasRising, HasRising-IsKept}
use ucla_cs130_googolplex.Session.Connection.{
  Connection, new_session, accepting, handle_write, Reachable, created, started, has_read,
  has_written, elsewhere,
}
use ucla_cs130_googolplex.Server.System.{
  System, handle_accept, Step, accepts, reads, writes, Reach, starts, steps,
}

module _ (files : FileSystem) where
  -- New factories have empty tables.
  dispatch_into-RoutesRising :
      (addrmap : Dict ConfigArg) (routes routes' : Dict Factory) (d d' : files.Disk)
      → RoutesRising routes
      → dispatch_into files addrmap routes d ≡ made (routes', d')
      → RoutesRising routes'
  unfolding dispatch_into
  dispatch_into-RoutesRising [] routes routes' d d' h e = subst RoutesRising (cc) h
  dispatch_into-RoutesRising ((k, arg) ∷ m) routes routes' d d' h e =
      elim (construct-cases files (kind_of arg.handler_type) arg d) [
        | inl not_made ↦ absurd (ground arith)
        | inr (d₁, constructed) ↦
            dispatch_into-RoutesRising m (assign k (factory_of arg) routes) routes' d₁ d'
              (All-assign (λ e. AllRising e.1.file_to_id) k (factory_of arg) routes tt h)
              (sym (dispatch_into-cons files k arg m routes d d₁ constructed) ∙ e)
      ]

  create_dispatcher-RoutesRising :
      (addrmap : Dict ConfigArg) (routes : Dict Factory) (d d' : files.Disk)
      → create_dispatcher files addrmap d ≡ made (routes, d')
      → RoutesRising routes
  unfolding create_dispatcher
  create_dispatcher-RoutesRising addrmap routes d d' e =
      dispatch_into-RoutesRising addrmap [] routes d d' tt e

module _ {http : Http} {files : FileSystem} {service : Api.Service} where
  abbrev Lives : World http files service → Connection → Type 0
  Lives w c = Reachable http files service c w

  moved :
      (cs : List Connection) (w w' : World http files service)
      → All (Lives w) cs
      → All (Lives w') cs
  moved cs w w' = All-map (λ c r. elsewhere c w w' r) cs

  -- The ids of all tables rise, a session waits for the next connection, and each of the others is
  -- as it could be on its own.
  pub record IsSound (s : System http files service) : Type 0 where
    pub rising : RoutesRising s.world.routes
    pub waiting : s.pending ≡ new_session
    pub sessions : All (Lives s.world) s.sessions

  accepts-IsSound :
      (address : Option Bytes) (s : System http files service)
      → IsSound s
      → IsSound (handle_accept http files service address s)
  unfolding handle_accept
  accepts-IsSound none s v = record { rising = v.rising; waiting = refl; sessions = v.sessions }
  accepts-IsSound (some address) s v =
      let first : Lives s.world s.pending =
        subst (Lives s.world) (sym v.waiting) (created s.world) in
      let at : s.pending.phase ≡ accepting = ap (λ (c : Connection). c.phase) v.waiting in
      record {
        rising = v.rising;
        waiting = refl;
        sessions = (started s.pending s.world address first at, v.sessions);
      }

  -- One session is replaced, and the others are as they were.
  replaced :
      (before after : List Connection) (c c' : Connection) (w w' : World http files service)
      → (Lives w c → Lives w' c')
      → All (Lives w) (before ++ c ∷ after)
      → All (Lives w') (before ++ c' ∷ after)
  replaced before after c c' w w' f h =
      let (front, (mid, back)) = All-middle (Lives w) before after c h in
      All-append (Lives w') before (c' ∷ after) (moved before w w' front)
        (f mid, moved after w w' back)

  Step-IsSound :
      {s t : System http files service} → Step http files service s t → IsSound s → IsSound t
  Step-IsSound {s} (accepts address e) v = subst IsSound (sym e) (accepts-IsSound address s v)
  Step-IsSound {s} (reads before after c c' received w at phase turn e) v =
      subst IsSound (sym e) (record {
        rising =
            handle_read-Leaves (HasRising http files service) (HasRising-IsKept http files service)
              received c c' s.world w v.rising turn;
        waiting = v.waiting;
        sessions =
            replaced before after c c' s.world w
              (λ r. has_read c c' s.world w received r phase turn)
              (subst (All (Lives s.world)) at v.sessions);
      })
  Step-IsSound {s} (writes before after c error address at phase e) v =
      subst IsSound (sym e) (record {
        rising = v.rising;
        waiting = v.waiting;
        sessions =
            replaced before after c (handle_write http files service error address c) s.world
              s.world (λ r. has_written c s.world error address r phase)
              (subst (All (Lives s.world)) at v.sessions);
      })

  module _ (addrmap : Dict ConfigArg) (d : files.Disk) where
    -- In every state that the server reaches from its configuration, in whatever order the
    -- callbacks of its sessions run, the lists of ids of every crud factory are strictly rising, a
    -- new session waits for the next connection, and each other session is in a state that it could
    -- reach on its own.
    pub Reach-IsSound :
        {s : System http files service} → Reach http files service addrmap d s → IsSound s
    Reach-IsSound (starts routes d' e) = record {
      rising = create_dispatcher-RoutesRising files addrmap routes d d' e;
      waiting = refl;
      sessions = tt;
    }
    Reach-IsSound (steps r step) = Step-IsSound step (Reach-IsSound r)
