-- ===== src/Files.antt =====
-- The file system, by the calls of Boost.Filesystem, of `std::ifstream` and `std::ofstream` and of
-- `std::remove` that the sources make, as an interface.
use ucla_cs130_googolplex.Prelude.{Bytes, List, Bool, true, false, Option, some, ◌≡◌, ◌⊎◌}

pub record FileSystem : Type 1 where
  -- What the disk holds.
  pub Disk : Type 0
  -- `exists`, `is_directory` and `is_regular_file` of the path throw `filesystem_error`, since its
  -- status cannot be had, as that of a name that is too long
  pub status_fails : Bytes → Disk → Bool
  pub exists : Bytes → Disk → Bool
  pub is_directory : Bytes → Disk → Bool
  -- `create_directory`; `none` where it throws `filesystem_error`
  pub create_directory : Bytes → Disk → Option Disk
  -- an `ofstream` that is opened, written and closed; nothing tells whether that succeeds
  pub write : Bytes → Bytes → Disk → Disk
  -- an `ifstream` that is read as a whole; `none` where it is not `good` once it is opened
  pub read : Bytes → Disk → Option Bytes
  -- an `ifstream` of the path is `good`, but what `tellg` gives at its end is no size that a string can
  -- be resized to, as for a directory, so that `resize` throws
  pub resize_fails : Bytes → Disk → Bool
  -- `std::remove`; `none` where it does not return 0
  pub remove : Bytes → Disk → Option Disk
  pub is_regular_file : Bytes → Disk → Bool
  -- `boost::filesystem::remove`; `none` where it throws
  pub remove_file : Bytes → Disk → Option Disk
  -- the names of the regular files that a `directory_iterator` meets, in its order; `none` where it
  -- throws
  pub regular_files : Bytes → Disk → Option (List Bytes)
  -- `path(p).extension()`, or nothing where `has_extension` is false
  pub extension : Bytes → Bytes

-- The file of `path` is read as a whole, with this content.
pub record IsText (files : FileSystem) (path content : Bytes) (d : files.Disk) : Type 0 where
  pub whole : files.resize_fails path d ≡ false
  pub text : files.read path d ≡ some content

-- The calls that ask for the status of the path, or read it as a whole, throw.
abbrev pub IsFault : (files : FileSystem) → Bytes → files.Disk → Type 0
IsFault files path d = (files.status_fails path d ≡ true) ⊎ (files.resize_fails path d ≡ true)

-- The path is that of a folder.
pub record IsFolder (files : FileSystem) (path : Bytes) (d : files.Disk) : Type 0 where
  pub status : files.status_fails path d ≡ false
  pub here : files.exists path d ≡ true
  pub folder : files.is_directory path d ≡ true

-- The path is that of a file that is no folder.
pub record IsFile (files : FileSystem) (path : Bytes) (d : files.Disk) : Type 0 where
  pub status : files.status_fails path d ≡ false
  pub here : files.exists path d ≡ true
  pub file : files.is_directory path d ≡ false

-- A disk on which the file of `path` can be written.
pub record IsWritable (files : FileSystem) (path : Bytes) (d : files.Disk) : Type 0 where
  pub written : (content : Bytes) → IsText files path content (files.write path content d)
  pub written_is_file : (content : Bytes) → IsFile files path (files.write path content d)
