-- ===== src/Main/Process/Failing.antt =====
-- What ends the process of src/server_main.cc while its server runs.
use ucla_cs130_googolplex.Prelude.{Bytes, some, ◌≡◌}
use ucla_cs130_googolplex.Std.Dict.{Dict, find}
use ucla_cs130_googolplex.Http.{Http}
use ucla_cs130_googolplex.Files.{FileSystem}
use ucla_cs130_googolplex.Config.Arg.{ConfigArg}
use ucla_cs130_googolplex.TextGen.Api
use ucla_cs130_googolplex.Session.Connection.{Connection}
use ucla_cs130_googolplex.Session.Risks.{MayFail}
use ucla_cs130_googolplex.Server.{kind_of}
use ucla_cs130_googolplex.Server.System.{System}

module _ (http : Http) (files : FileSystem) (service : Api.Service) where
  open http use {Request, target, parse}

  -- A request for an entry of the configuration of which the handler may fail.
  pub record IsRiskyEntry (addrmap : Dict ConfigArg) (client_ip text : Bytes) (d : files.Disk)
      : Type 0 where
    pub request : Request
    pub location : Bytes
    pub arg : ConfigArg
    pub parsed : parse text ≡ some request
    pub entry : find location addrmap ≡ some arg
    pub may_fail :
        MayFail http files service
          (kind_of arg.handler_type)
          (record { client_ip = client_ip; prefix = arg.location; dir = arg.root })
          request
          d
