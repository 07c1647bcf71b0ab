-- ===== src/Config/File.antt =====
-- `NginxConfigParser::Parse` of src/config_parser.cc on the name of a file.
use ucla_cs130_googolplex.Prelude.{Bytes, false, none, some}
use ucla_cs130_googolplex.Prelude.Int.{ℤ}
use ucla_cs130_googolplex.Std.Dict.{Dict}
use ucla_cs130_googolplex.Files.{FileSystem}
use ucla_cs130_googolplex.Config.Arg.{ConfigArg}
use ucla_cs130_googolplex.Config.Tree.{NginxConfig}
use ucla_cs130_googolplex.Config.Parse.{Result, returned, initial, parse}

module _ (files : FileSystem) where
  open files use {Disk, read}

  -- Where the file cannot be opened, the out-parameters stay as the caller set them.
  unfoldable pub parse_file : Bytes → NginxConfig → ℤ → Dict ConfigArg → Disk → Result
  parse_file file_name config port addrmap d = elim (read file_name d) [
    | none ↦ returned false (record (initial config addrmap) { port = port })
    | some text ↦ parse text config addrmap
  ]
