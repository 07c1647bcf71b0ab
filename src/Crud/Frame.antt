-- ===== src/Crud/Frame.antt =====
-- A request to the crud handler (src/request_handler_crud.cc) and the files that are not its own.
pub mod Disks
use ucla_cs130_googolplex.Prelude.{
  ℕ, Bytes, codes, ◌++◌, ◌&&◌, not, Bool-cases, Option-cases, some, false, ◌≡◌, refl, inl, inr, ◌∙◌,
  arith,
}
use ucla_cs130_googolplex.Std.Number.{stoi, to_string}
use ucla_cs130_googolplex.Http.{Http, Verb, get, post, put, delete, options, other}
use ucla_cs130_googolplex.Files.{FileSystem}
use ucla_cs130_googolplex.Handler.{Handler, create_dir, write_to_file, check_request_url}
use ucla_cs130_googolplex.Crud.Invariant.{Stoi-cases}
use ucla_cs130_googolplex.Crud.{
  Store, handle_post_request, handle_put_request, handle_delete_request, dispatch, handle_request,
  id_of, id_name_of, entity_of,
}
use ucla_cs130_googolplex.Crud.Frame.Disks.{
  disk_of, below_dir, with_folder, post_entry-disk, put_known-disk, put_new-disk, delete_entry-disk,
  handle_get_request-disk, handle_post_request-disk, handle_put_request-disk,
  handle_put_request_same, handle_delete_request-disk, handle_delete_request_same,
}

-- What is done to the file or the folder of a name does not show in what `look` sees of the disk, as
-- the content of another file. Two names that differ may stand for one file, so the relation is not
-- that names differ.
pub record IsApart (files : FileSystem) {A : Type 0} (p : Bytes) (look : files.Disk → A)
    : Type 0 where
  pub create_apart : (d d' : files.Disk) → files.create_directory p d ≡ some d' → look d' ≡ look d
  pub write_apart : (content : Bytes) (d : files.Disk) → look (files.write p content d) ≡ look d
  pub remove_apart : (d d' : files.Disk) → files.remove p d ≡ some d' → look d' ≡ look d

module _ (http : Http) (files : FileSystem) (h : Handler) {A : Type 0} (look : files.Disk → A) where
  open http use {Request, Response}
  open files use {Disk}

  -- The names that a request with a key may touch: the folder of its entity, its file, and the file of
  -- any id below it.
  pub record IsForeign (suffix : Bytes) : Type 0 where
    pub entity : IsApart files (below_dir h (entity_of suffix)) look
    pub itself : IsApart files (below_dir h suffix) look
    pub numbered : (id : ℕ) → IsApart files (below_dir h suffix ++ (codes "/" ++ to_string id)) look

  create_dir_keeps :
      (p : Bytes) (d : Disk) → IsApart files p look → look (create_dir files p d).1 ≡ look d
  unfolding create_dir
  create_dir_keeps p d a = elim (Option-cases (files.create_directory p d)) [
    | inl failed ↦ ground arith
    | inr (d', made) ↦ ground (arith, a.create_apart d d' made)
  ]

  write_to_file_keeps :
      (p content : Bytes) (d : Disk)
      → IsApart files p look
      → look (write_to_file files p content d).1 ≡ look d
  unfolding write_to_file
  write_to_file_keeps p content d a = ground (arith, a.write_apart content d)

  module _ (suffix : Bytes) (r : Response) (s : Store http files) where
    module _ (f : IsForeign suffix) where
      -- What is seen is as before.
      abbrev Keeps : Disk → Type 0
      Keeps d = look d ≡ look s.disk

      folder-Keeps :
          (p : Bytes) → IsApart files (below_dir h p) look → Keeps (with_folder files h p s.disk)
      folder-Keeps p a = create_dir_keeps (below_dir h p) s.disk a

      post-Keeps :
          (request : Request)
          → Keeps (disk_of (handle_post_request http files h suffix request r s))
      post-Keeps request = elim (handle_post_request-disk h suffix r s request) [
        | inl e ↦
            rw (e, post_entry-disk h suffix r s request)
              (write_to_file_keeps _ (http.body request) s.disk (f.numbered _))
        | inr (inl e) ↦ rw e (folder-Keeps suffix f.itself)
        | inr (inr e) ↦
            rw
              (
                e,
                post_entry-disk h suffix r (record s { disk = with_folder files h suffix s.disk })
                    request,
              )
              (write_to_file_keeps _ (http.body request) (with_folder files h suffix s.disk)
                  (f.numbered _)
                ∙ folder-Keeps suffix f.itself)
      ]

      put-Keeps :
          (request : Request) → Keeps (disk_of (handle_put_request http files h suffix request r s))
      put-Keeps request = elim (Option-cases (id_of (stoi (id_name_of suffix)))) [
        | inl e ↦ rw (handle_put_request_same h suffix r s request e) refl
        | inr (id, e) ↦ elim (handle_put_request-disk h suffix r s request id e) [
          | inl same ↦ rw same refl
          | inr (inl known) ↦
              rw (known, put_known-disk h suffix r s (entity_of suffix) id request)
                (write_to_file_keeps (below_dir h suffix) (http.body request) s.disk f.itself)
          | inr (inr new) ↦ rw new (elim (put_new-disk h suffix r s (entity_of suffix) id request) [
            | inl made ↦ rw made (folder-Keeps (entity_of suffix) f.entity)
            | inr written ↦ rw written (
                write_to_file_keeps (below_dir h suffix) (http.body request)
                  (with_folder files h (entity_of suffix) s.disk) f.itself
                ∙ folder-Keeps (entity_of suffix) f.entity)
          ])
        ]
      ]

      delete-Keeps : Keeps (disk_of (handle_delete_request http files h suffix r s))
      delete-Keeps = elim (Stoi-cases (stoi (id_name_of suffix))) [
        | inl (id, e) ↦ elim (handle_delete_request-disk h suffix r s id e) [
          | inl same ↦ rw same refl
          | inr gone ↦ rw gone (elim (delete_entry-disk h suffix r s id) [
            | inl same ↦ rw same refl
            | inr removed ↦ f.itself.remove_apart s.disk _ removed
          ])
        ]
        | inr e ↦ rw (handle_delete_request_same h suffix r s e) refl
      ]

      dispatch-Keeps :
          (verb : Verb) (request : Request)
          → Keeps (disk_of (dispatch http files verb h suffix request r s))
      unfolding dispatch
      dispatch-Keeps post request = post-Keeps request
      dispatch-Keeps get request = rw (handle_get_request-disk h suffix r s) refl
      dispatch-Keeps put request = put-Keeps request
      dispatch-Keeps delete request = delete-Keeps
      dispatch-Keeps options request = refl
      dispatch-Keeps other request = refl

  -- Whatever the request to the crud handler and its outcome, what is seen of the disk is as
  -- before, by any look, as at the content of one file, in which what is done to the folder of the
  -- entity, to the file of the key and to the files of the ids below the key does not show.
  pub handle_request_keeps :
      (request : Request) (r : Response) (s : Store http files)
      → IsForeign (check_request_url h (http.target request) false).1
      → look (disk_of (handle_request http files h request r s)) ≡ look s.disk
  unfolding handle_request
  handle_request_keeps request r s f =
      elim (Bool-cases (not (check_request_url h (http.target request) false).0)) [
        | inl bad ↦ rw bad refl
        | inr good ↦ rw good (dispatch-Keeps _ r s f (http.method request) request)
      ]
