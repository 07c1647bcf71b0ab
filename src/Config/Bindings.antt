-- ===== src/Config/Bindings.antt =====
-- What `NginxConfigParser::Parse` of src/config_parser.cc does to `addrmap`.
use ucla_cs130_googolplex.Prelude.{Bytes, codes, equal, if◌then◌else◌, [], none, some}
use ucla_cs130_googolplex.Std.Dict.{Dict, find, assign, insert}
use ucla_cs130_googolplex.Std.Vector.{Vector, push_back}
use ucla_cs130_googolplex.Config.Arg.{ConfigArg, default_arg}

-- The `root` and `data_path` directives update the entry of the location, or make one.
unfoldable pub set_root : Bytes → Bytes → Bytes → Dict ConfigArg → Dict ConfigArg
set_root location config_type token addrmap = elim (find location addrmap) [
  | some arg ↦
      assign location (record arg { handler_type = config_type; location = location; root = token })
        addrmap
  | none ↦
      insert location
        (record default_arg { handler_type = config_type; location = location; root = token })
        addrmap
]

-- So does the `api-key` directive.
unfoldable pub set_api_key : Bytes → Bytes → Bytes → Dict ConfigArg → Dict ConfigArg
set_api_key location config_type token addrmap = elim (find location addrmap) [
  | some arg ↦
      assign location
        (record arg { handler_type = config_type; location = location; api_key = token }) addrmap
  | none ↦
      insert location
        (record default_arg { handler_type = config_type; location = location; api_key = token })
        addrmap
]

-- An empty block replaces the entry as a whole.
unfoldable pub set_empty : Bytes → Bytes → Dict ConfigArg → Dict ConfigArg
set_empty location config_type addrmap =
    let args = record default_arg { handler_type = config_type; location = location; root = [] } in
    elim (find location addrmap) [
      | some _ ↦ assign location args addrmap
      | none ↦ insert location args addrmap
    ]

-- The block that ends was opened by the token before, and its statement is a location. Here the path
-- and the handler type may be any tokens.
unfoldable pub bind_empty : Vector Bytes → Dict ConfigArg → Dict ConfigArg
unfolding set_empty
bind_empty (push_back (push_back (push_back _ word) location) config_type) addrmap =
    if equal word (codes "location") then set_empty location config_type addrmap else addrmap
bind_empty _ addrmap = addrmap
