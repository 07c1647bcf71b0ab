-- ===== src/Crud/Putting.antt =====
-- What a PUT to the crud handler (src/request_handler_crud.cc) writes.
use ucla_cs130_googolplex.Prelude.{
  Bytes, codes, ◌++◌, true, Option-cases, if◌then◌else◌, ◌≡◌, inl, inr, arith,
}
use ucla_cs130_googolplex.Std.Dict.{contains}
use ucla_cs130_googolplex.Std.Number.{stoi}
use ucla_cs130_googolplex.Http.{Http}
use ucla_cs130_googolplex.Files.{FileSystem}
use ucla_cs130_googolplex.Handler.{Handler, create_dir, write_to_file}
use ucla_cs130_googolplex.Crud.{
  Store, returned, handle_put_request, put_known, put_new, put_file, entity_of, id_name_of, id_of,
}

module _ (http : Http) (files : FileSystem) (h : Handler) (suffix : Bytes)
    (s : Store http files) where
  open files use {Disk}

  -- The disk with the folder of the entity.
  abbrev pub disk_for_put : Disk
  disk_for_put =
      if contains (entity_of suffix) s.table
      then s.disk
      else (create_dir files (h.dir ++ (codes "/" ++ entity_of suffix)) s.disk).1

  abbrev pub put_path : Bytes
  put_path = h.dir ++ (codes "/" ++ suffix)

module _ (http : Http) (files : FileSystem) (h : Handler) (suffix : Bytes) (s s' : Store http files)
    (request : http.Request) (r r' : http.Response) where
  open http use {body}
  open files use {write}

  abbrev path : Bytes
  path = put_path http files h suffix s

  abbrev disk : files.Disk
  disk = disk_for_put http files h suffix s

  pub put_writes :
      handle_put_request http files h suffix request r s ≡ returned true s' r'
      → s'.disk ≡ write path (body request) disk
  unfolding handle_put_request put_known put_new put_file write_to_file
  put_writes e = elim (Option-cases (id_of (stoi (id_name_of suffix)))) [
    | inl no_id ↦ absurd (ground arith)
    | inr (id, spelled) ↦ ground arith
  ]
