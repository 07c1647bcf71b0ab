-- ===== src/Config/Arg.antt =====
-- include/config_arg.h
use ucla_cs130_googolplex.Prelude.{Bytes, codes, List, [], ◌∷◌}

pub record ConfigArg : Type 0 where
  pub handler_type : Bytes
  pub location : Bytes
  pub root : Bytes
  pub api_key : Bytes

-- The default member initialisers.
abbrev pub default_arg : ConfigArg
default_arg = record { handler_type = []; location = []; root = []; api_key = [] }

-- `valid_handler_types`, in the order of a `std::set`.
abbrev pub valid_handler_types : List Bytes
valid_handler_types =
    codes "BlockHandler"
    ∷ codes "CrudHandler"
    ∷ codes "EchoHandler"
    ∷ codes "HealthHandler"
    ∷ codes "NotFoundHandler"
    ∷ codes "StaticHandler"
    ∷ codes "TextGenHandler"
    ∷ []
