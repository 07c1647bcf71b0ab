-- ===== src/Server/System/Entries.antt =====
-- The factories in the states that the server of src/server.cc reaches.
use ucla_cs130_googolplex.Prelude.{Bytes, Option, none, some, ◌≡◌, refl, sym, subst, ap, ◌∙◌}
use ucla_cs130_googolplex.Std.Dict.{Dict, find}
use ucla_cs130_googolplex.Std.Dict.Order.{DistinctKeys}
use ucla_cs130_googolplex.Http.{Http}
use ucla_cs130_googolplex.Files.{FileSystem}
use ucla_cs130_googolplex.Config.Arg.{ConfigArg}
use ucla_cs130_googolplex.TextGen.Api
use ucla_cs130_googolplex.Server.Routes.{routed, create_dispatcher-find}
use ucla_cs130_googolplex.Session.Worlds.{handle_read-Leaves}
use ucla_cs130_googolplex.Session.Entries.{as_new, IsRouted, HasRoutes, HasRoutes-IsKept}
use ucla_cs130_googolplex.Server.System.{
  System, handle_accept, Step, accepts, reads, writes, Reach, starts, steps,
}

as_new-routed : (o : Option ConfigArg) → as_new (routed o none) ≡ routed o none
as_new-routed none = refl
as_new-routed (some arg) = refl

module _ {http : Http} {files : FileSystem} {service : Api.Service} (addrmap : Dict ConfigArg) where
  abbrev RoutedIn : System http files service → Type 0
  RoutedIn s = IsRouted addrmap s.world.routes

  accepts-RoutedIn :
      (address : Option Bytes) (s : System http files service)
      → RoutedIn s
      → RoutedIn (handle_accept http files service address s)
  unfolding handle_accept
  accepts-RoutedIn none s h = h
  accepts-RoutedIn (some address) s h = h

  Step-RoutedIn :
      {s t : System http files service} → Step http files service s t → RoutedIn s → RoutedIn t
  Step-RoutedIn {s} (accepts address e) h = subst RoutedIn (sym e) (accepts-RoutedIn address s h)
  Step-RoutedIn {s} (reads before after c c' received w at phase turn e) h =
      subst RoutedIn (sym e) (
        handle_read-Leaves (HasRoutes http files service addrmap)
          (HasRoutes-IsKept http files service addrmap) received c c' s.world w h turn)
  Step-RoutedIn {s} (writes before after c error address at phase e) h = subst RoutedIn (sym e) h

  module _ (d : files.Disk) (distinct : DistinctKeys addrmap) where
    -- In every state that the server reaches, whatever the requests, each location of its map has a
    -- factory of the class of its handler type with its entry, and no other location has a factory.
    pub Reach-IsRouted :
        {s : System http files service}
        → Reach http files service addrmap d s
        → IsRouted addrmap s.world.routes
    Reach-IsRouted (starts routes d' e) = λ l.
        ap as_new (create_dispatcher-find files addrmap routes d d' l distinct e)
        ∙ as_new-routed (find l addrmap)
    Reach-IsRouted (steps r step) = Step-RoutedIn step (Reach-IsRouted r)
