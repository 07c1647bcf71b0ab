-- ===== src/Server.antt =====
-- `server::create_dispatcher` of src/server.cc.
pub mod Routes
pub mod System
use ucla_cs130_googolplex.Prelude.{Bytes, codes, equal, if◌then◌else◌, [], ◌∷◌}
use ucla_cs130_googolplex.Std.Dict.{Dict, assign}
use ucla_cs130_googolplex.Files.{FileSystem}
use ucla_cs130_googolplex.Config.Arg.{ConfigArg}
use ucla_cs130_googolplex.Factory.{
  Kind, echo, static, not_found, crud, block, health, text_gen, Factory, Made, made, stopped,
  raised, construct,
}

-- The class of the factory for a handler type.
unfoldable pub kind_of : Bytes → Kind
kind_of handler_type =
    if equal handler_type (codes "StaticHandler")
    then static
    else if equal handler_type (codes "EchoHandler")
    then echo
    else if equal handler_type (codes "CrudHandler")
    then crud
    else if equal handler_type (codes "BlockHandler")
    then block
    else if equal handler_type (codes "HealthHandler")
    then health
    else if equal handler_type (codes "TextGenHandler")
    then text_gen
    else not_found

module _ (files : FileSystem) where
  open files use {Disk}

  -- The loop over the map.
  unfoldable pub dispatch_into : Dict ConfigArg → Dict Factory → Disk → Made (Dict Factory × Disk)
  unfolding kind_of construct assign
  dispatch_into [] routes d = made (routes, d)
  dispatch_into ((location, arg) ∷ addrmap) routes d =
      elim (construct files (kind_of arg.handler_type) arg d) [
        | made (f, d') ↦ dispatch_into addrmap (assign location f routes) d'
        | stopped ↦ stopped
        | raised ↦ raised
      ]

  unfoldable pub create_dispatcher : Dict ConfigArg → Disk → Made (Dict Factory × Disk)
  unfolding dispatch_into
  create_dispatcher addrmap d = dispatch_into addrmap [] d
