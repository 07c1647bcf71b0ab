-- ===== src/Crud/Frame/Disks.antt =====
-- The disk behind each operation of the crud handler (src/request_handler_crud.cc).
use ucla_cs130_googolplex.Prelude.{ℕ, Bytes, codes, ◌++◌, none, some, ◌≡◌, ◌⊎◌, arith}
use ucla_cs130_googolplex.Prelude.Int.{ℤ}
use ucla_cs130_googolplex.Std.Number.{value, invalid_argument, out_of_range, stoi, to_string}
use ucla_cs130_googolplex.Http.{Http}
use ucla_cs130_googolplex.Files.{FileSystem}
use ucla_cs130_googolplex.Handler.{Handler, create_dir, write_to_file}
use ucla_cs130_googolplex.Crud.Ids.{get_next_id}
use ucla_cs130_googolplex.Crud.{
  Store, Handled, returned, threw, post_entry, handle_post_request, handle_get_request, put_file,
  put_known, put_new, handle_put_request, delete_entry, handle_delete_request, id_of, id_name_of,
  entity_of,
}

-- The name of a file or a folder of the handler.
abbrev pub below_dir : Handler → Bytes → Bytes
below_dir h name = h.dir ++ (codes "/" ++ name)

-- The disk with the folder of a name.
abbrev pub with_folder : (files : FileSystem) → Handler → Bytes → files.Disk → files.Disk
with_folder files h name d = (create_dir files (below_dir h name) d).1

module _ {http : Http} {files : FileSystem} where
  open http use {Request, Response}
  open files use {Disk}

  -- What a request leaves, also where it throws.
  abbrev pub disk_of : Handled http files → Disk
  disk_of (returned b s r) = s.disk
  disk_of (threw s) = s.disk

  module _ (h : Handler) where
    module _ (suffix : Bytes) (r : Response) (s : Store http files) where
      pub post_entry-disk :
          (request : Request)
          → disk_of (post_entry http files h suffix request r s)
            ≡ (write_to_file files
                (below_dir h suffix ++ (codes "/" ++ to_string (get_next_id suffix s.table).0))
                (http.body request)
                s.disk).1
      unfolding post_entry
      post_entry-disk request = ground arith

      pub delete_entry-disk :
          (id : ℤ)
          → (disk_of (delete_entry http files h suffix id r s) ≡ s.disk)
            ⊎ (files.remove (below_dir h suffix) s.disk
                ≡ some (disk_of (delete_entry http files h suffix id r s)))
      unfolding delete_entry
      delete_entry-disk id = ground arith

      pub handle_get_request-disk : disk_of (handle_get_request http files h suffix r s) ≡ s.disk
      unfolding handle_get_request
      handle_get_request-disk = ground arith

    module _ (suffix : Bytes) (r : Response) (s : Store http files) where
      pub handle_post_request-disk :
          (request : Request)
          → (disk_of (handle_post_request http files h suffix request r s)
              ≡ disk_of (post_entry http files h suffix request r s))
            ⊎ ((disk_of (handle_post_request http files h suffix request r s)
                  ≡ with_folder files h suffix s.disk)
                ⊎ (disk_of (handle_post_request http files h suffix request r s)
                    ≡ disk_of (
                        post_entry http files h suffix request r
                          (record s { disk = with_folder files h suffix s.disk }))))
      unfolding handle_post_request
      handle_post_request-disk request = ground arith

      pub put_known-disk :
          (entity : Bytes) (id : ℕ) (request : Request)
          → disk_of (put_known http files h suffix entity id request r s)
            ≡ (write_to_file files (below_dir h suffix) (http.body request) s.disk).1
      unfolding put_known put_file
      put_known-disk entity id request = ground arith

      pub put_new-disk :
          (entity : Bytes) (id : ℕ) (request : Request)
          → (disk_of (put_new http files h suffix entity id request r s)
              ≡ with_folder files h entity s.disk)
            ⊎ (disk_of (put_new http files h suffix entity id request r s)
                ≡ (write_to_file files
                    (below_dir h suffix)
                    (http.body request)
                    (with_folder files h entity s.disk)).1)
      unfolding put_new put_file
      put_new-disk entity id request = ground arith

      pub handle_put_request-disk :
          (request : Request) (id : ℕ)
          → id_of (stoi (id_name_of suffix)) ≡ some id
          → (disk_of (handle_put_request http files h suffix request r s) ≡ s.disk)
            ⊎ ((disk_of (handle_put_request http files h suffix request r s)
                  ≡ disk_of (put_known http files h suffix (entity_of suffix) id request r s))
                ⊎ (disk_of (handle_put_request http files h suffix request r s)
                    ≡ disk_of (put_new http files h suffix (entity_of suffix) id request r s)))
      unfolding handle_put_request
      handle_put_request-disk request id e = ground arith

      pub handle_put_request_same :
          (request : Request)
          → id_of (stoi (id_name_of suffix)) ≡ none
          → disk_of (handle_put_request http files h suffix request r s) ≡ s.disk
      unfolding handle_put_request
      handle_put_request_same request e = ground arith

      pub handle_delete_request-disk :
          (id : ℤ)
          → stoi (id_name_of suffix) ≡ value id
          → (disk_of (handle_delete_request http files h suffix r s) ≡ s.disk)
            ⊎ (disk_of (handle_delete_request http files h suffix r s)
                ≡ disk_of (delete_entry http files h suffix id r s))
      unfolding handle_delete_request
      handle_delete_request-disk id e = ground arith

      pub handle_delete_request_same :
          (stoi (id_name_of suffix) ≡ invalid_argument) ⊎ (stoi (id_name_of suffix) ≡ out_of_range)
          → disk_of (handle_delete_request http files h suffix r s) ≡ s.disk
      unfolding handle_delete_request
      handle_delete_request_same e = ground arith
