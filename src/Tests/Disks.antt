-- ===== src/Tests/Disks.antt =====
-- A disk for the tests: the names that it has, each a folder or a file with its content.
use ucla_cs130_googolplex.Prelude.{
  Bytes, codes, equal, if◌then◌else◌, Bool, true, false, [], ◌∷◌, Option, none, some,
}
use ucla_cs130_googolplex.Std.Dict.{Dict, find, contains, assign}
use ucla_cs130_googolplex.Files.{FileSystem}

pub data Node : Type 0 where
  folder : Node
  file : Bytes → Node

abbrev is_folder : Option Node → Bool
is_folder (some folder) = true
is_folder _ = false

abbrev is_file : Option Node → Bool
is_file (some (file _)) = true
is_file _ = false

abbrev pub content_of : Option Node → Option Bytes
content_of (some (file content)) = some content
content_of _ = none

abbrev pub without : Bytes → Dict Node → Dict Node
without path [] = []
without path ((name, node) ∷ d) =
    if equal name path then without path d else (name, node) ∷ without path d

abbrev pub test_files : FileSystem
test_files = record {
  Disk = Dict Node;
  status_fails = λ path d. false;
  exists = contains;
  is_directory = λ path d. is_folder (find path d);
  create_directory = λ path d. some (assign path folder d);
  write = λ path content d. assign path (file content) d;
  read = λ path d. content_of (find path d);
  resize_fails = λ path d. is_folder (find path d);
  remove = λ path d. if contains path d then some (without path d) else none;
  is_regular_file = λ path d. is_file (find path d);
  remove_file = λ path d. some (without path d);
  regular_files = λ path d. some [];
  extension = λ path. codes ".txt";
}
