-- ===== src/Handler.antt =====
-- `request_handler` of src/request_handler.cc and include/request_handler.h.
pub mod Url
use ucla_cs130_googolplex.Prelude.{
  ℕ, Bytes, codes, length, ltb, ◌==◌, equal, if◌then◌else◌, Bool, true, false, ◌&&◌, [], ◌++◌,
  Option, none, some,
}
use ucla_cs130_googolplex.Std.Strings.{drop, find, pop_back_while}
use ucla_cs130_googolplex.Files.{FileSystem}

-- The members of `request_handler`.
pub record Handler : Type 0 where
  pub client_ip : Bytes
  pub prefix : Bytes
  pub dir : Bytes

abbrev pub bad_request_msg : Bytes
bad_request_msg =
    codes
      "<html><head><title>Bad Request</title></head><body><h1>400 Bad Request</h1></body></html>"

abbrev pub not_found_msg : Bytes
not_found_msg =
    codes "<html><head><title>Not Found</title></head><body><h1>404 Not Found</h1></body></html>"

abbrev pub internal_server_error_msg : Bytes
internal_server_error_msg =
    codes
      "<html><head><title>Internal Server Error</title></head><body><h1>500 Internal Server Error</h1></body></html>"

module _ (files : FileSystem) where
  open files use {
    Disk, exists, is_directory, status_fails, create_directory, write, read, resize_fails,
  }

  -- `write_to_file`; the result is `none` where it throws
  unfoldable pub write_to_file : Bytes → Bytes → Disk → Option Bool × Disk
  write_to_file path content d =
      if status_fails path d
      then (none, d)
      else if is_directory path d
      then (some false, d)
      else (some true, write path content d)

  -- `read_from_file`: the content, where it returns true, and `none` around it where it throws.
  unfoldable pub read_from_file : Bytes → Disk → Option (Option Bytes)
  read_from_file path d = if resize_fails path d then none else some (read path d)

  -- `create_dir`; the result is `none` where it throws
  unfoldable pub create_dir : Bytes → Disk → Option Bool × Disk
  create_dir path d =
      if status_fails path d
      then (none, d)
      else if exists path d && is_directory path d
      then (some true, d)
      else elim (create_directory path d) [ none ↦ (some false, d) | some d' ↦ (some true, d') ]

-- `pos != std::string::npos && pos == 0`
abbrev pub at_front : Option ℕ → Bool
at_front none = false
at_front (some pos) = pos == 0

-- `check_request_url`: its result, and what it leaves in `key`.
unfoldable pub check_request_url : Handler → Bytes → Bool → Bool × Bytes
check_request_url h url for_get =
    let prefix = h.prefix ++ codes "/" in
    let pos = find prefix url in
    if at_front pos && ltb (length prefix) (length url)
    then (true, pop_back_while b'/' (drop (length prefix) url))
    else if at_front pos && length url == length prefix && for_get
    then (true, [])
    else if equal prefix (url ++ codes "/")
    then (true, [])
    else (false, [])
