-- ===== src/Crud/Posting.antt =====
-- What a POST to the crud handler (src/request_handler_crud.cc) creates, and what a GET gives behind it.
use ucla_cs130_googolplex.Prelude.{
  ℕ, ◌<◌, Bytes, codes, ◌++◌, append_assoc, Bool, true, false, [], ◌∷◌, Option, some, if◌then◌else◌,
  ◌≡◌, ◌≢◌, refl, sym, arith, equal_refl,
}
use ucla_cs130_googolplex.Std.Dict.{contains}
use ucla_cs130_googolplex.Std.Number.{to_string, int_max, decimal}
use ucla_cs130_googolplex.Std.Number.RoundTrip.{AllDigits, stoi_digits}
use ucla_cs130_googolplex.Http.{Http, IsHttp, ok, created}
use ucla_cs130_googolplex.Files.{FileSystem, IsFile, IsText, IsWritable}
use ucla_cs130_googolplex.Handler.{Handler, create_dir, write_to_file, read_from_file}
use ucla_cs130_googolplex.Crud.Ids.{ids, member, get_next_id}
use ucla_cs130_googolplex.Crud.Ids.Tables.{AllRising}
use ucla_cs130_googolplex.Crud.Ids.NextId.{IsNextId, get_next_id-IsNextId}
use ucla_cs130_googolplex.Crud.Responses.{
  prepare_created_response, prepare_internal_server_error_response,
}
use ucla_cs130_googolplex.Crud.{
  Store, returned, threw, handle_post_request, handle_get_request, handle_put_request, all_digits,
  id_name_of, id_of,
}

module _ (http : Http) (files : FileSystem) (h : Handler) (suffix : Bytes)
    (s : Store http files) where
  open http use {Request, Response, body, status_of, body_of}
  open files use {Disk, is_directory, status_fails, write}

  abbrev pub folder : Bytes
  folder = h.dir ++ (codes "/" ++ suffix)

  -- Whether the folder of the entity is there, or can be made, and the disk with it; `none` where that
  -- cannot be told.
  abbrev pub has_folder : Option Bool
  has_folder = if contains suffix s.table then some true else (create_dir files folder s.disk).0

  abbrev pub disk_with_folder : Disk
  disk_with_folder = if contains suffix s.table then s.disk else (create_dir files folder s.disk).1

  abbrev pub new_id : ℕ
  new_id = (get_next_id suffix s.table).0

  abbrev pub new_file : Bytes
  new_file = folder ++ (codes "/" ++ to_string new_id)

  abbrev pub after_post : Bytes → Store http files
  after_post content = record {
    table = (get_next_id suffix s.table).1;
    disk = write new_file content disk_with_folder;
  }

  module _ (request : Request) (r : Response) where
    pub handle_post_request_created :
        has_folder ≡ some true
        → status_fails new_file disk_with_folder ≡ false
        → is_directory new_file disk_with_folder ≡ false
        → handle_post_request http files h suffix request r s
          ≡ returned true (after_post (body request)) (prepare_created_response http new_id r)
    unfolding handle_post_request write_to_file
    handle_post_request_created made known file = ground arith

    handle_post_request_returns_true :
        (s' : Store http files) (r' : Response)
        → handle_post_request http files h suffix request r s ≡ returned true s' r'
        → (has_folder ≡ some true)
          × (status_fails new_file disk_with_folder ≡ false)
          × (is_directory new_file disk_with_folder ≡ false)
    unfolding handle_post_request write_to_file
    handle_post_request_returns_true s' r' e = ground arith

    pub handle_post_request_lost :
        has_folder ≡ some true
        → status_fails new_file disk_with_folder ≡ false
        → is_directory new_file disk_with_folder ≡ true
        → handle_post_request http files h suffix request r s
          ≡ returned false
              (record { table = (get_next_id suffix s.table).1; disk = disk_with_folder })
              (prepare_internal_server_error_response http r)
    unfolding handle_post_request write_to_file
    handle_post_request_lost made known dir = ground arith

  -- Where the lists of ids are strictly rising, a POST that has the folder of its entity, but where
  -- a directory stands at the path of its new file, has taken the id all the same: the handler
  -- returns false, nothing is written, and the table lists the new id, which was free.
  pub lost_post_takes_id :
      (request : Request) (r : Response)
      → AllRising s.table
      → has_folder ≡ some true
      → status_fails new_file disk_with_folder ≡ false
      → is_directory new_file disk_with_folder ≡ true
      → (s' : Store http files) × (r' : Response) × (handle_post_request http files h suffix request
            r s
          ≡ returned false s' r')
        × (s'.disk ≡ disk_with_folder)
        × (member new_id (ids suffix s.table) ≡ false)
        × (member new_id (ids suffix s'.table) ≡ true)
  lost_post_takes_id request r v made known dir =
      let next = get_next_id-IsNextId suffix s.table v in
      (
        _,
        _,
        handle_post_request_lost request r made known dir,
        refl,
        next.free,
        ground (arith, next.adds suffix new_id, equal_refl suffix),
      )

-- The path of an id below its entity.
path_of_id :
    (dir suffix n : Bytes)
    → dir ++ (codes "/" ++ (suffix ++ (codes "/" ++ n)))
      ≡ (dir ++ (codes "/" ++ suffix)) ++ (codes "/" ++ n)
path_of_id dir suffix n = sym (append_assoc dir (codes "/" ++ suffix) (codes "/" ++ n))

pub get_file :
    (http : Http) (files : FileSystem) (h : Handler) (suffix content : Bytes) (r : http.Response)
    (s : Store http files)
    → IsFile files (h.dir ++ (codes "/" ++ suffix)) s.disk
    → IsText files (h.dir ++ (codes "/" ++ suffix)) content s.disk
    → handle_get_request http files h suffix r s
      ≡ returned true s (http.prepare_payload (http.set_body content (http.result ok r)))
unfolding handle_get_request read_from_file
get_file http files h suffix content r s here text = ground arith

module _ {http : Http} (laws : IsHttp http) (files : FileSystem) where
  open http use {Request, Response, body, status_of, body_of, result, set_body, prepare_payload}

  module _ (h : Handler) (suffix : Bytes) (s : Store http files) (request : Request)
      (r : Response) where
    post_result :
        (s' : Store http files) (r' : Response)
        → handle_post_request http files h suffix request r s ≡ returned true s' r'
        → (s' ≡ after_post http files h suffix s (body request))
          × (r' ≡ prepare_created_response http (new_id http files h suffix s) r)
    post_result s' r' e =
        let (made, known, file) =
          handle_post_request_returns_true http files h suffix s request r s' r' e in
        let shape = handle_post_request_created http files h suffix s request r made known file in
        (cc, cc)

    created_response :
        (id : ℕ)
        → (status_of (prepare_created_response http id r) ≡ created)
          × (body_of (prepare_created_response http id r)
              ≡ codes "Created entry at {\"id\":" ++ (to_string id ++ codes "}\n"))
    unfolding prepare_created_response
    created_response id = (
      simp (
        laws.status_of-prepare_payload, laws.status_of-set_body, laws.status_of-set,
        laws.status_of-result,
      ),
      simp (laws.body_of-prepare_payload, laws.body_of-set_body),
    )

    -- Where the lists of ids are strictly rising, a POST that succeeds replies 201 with the id in
    -- its body; the id is the lowest positive one that was free for the entity, and the table has
    -- that id more and no other change.
    pub post_creates :
        (s' : Store http files) (r' : Response)
        → AllRising s.table
        → handle_post_request http files h suffix request r s ≡ returned true s' r'
        → (status_of r' ≡ created)
          × (body_of r'
              ≡ codes "Created entry at {\"id\":"
                ++ (to_string (new_id http files h suffix s) ++ codes "}\n"))
          × IsNextId suffix s.table (new_id http files h suffix s) s'.table
    post_creates s' r' v e =
        let (same, reply) = post_result s' r' e in
        let (status, text) = created_response (new_id http files h suffix s) in
        (rw reply status, rw reply text, rw same (get_next_id-IsNextId suffix s.table v))

    -- A GET of the id that a POST made returns 200 with the content that was posted, if the file of
    -- that id could be written.
    pub get_after_post :
        (s' : Store http files) (r' r'' : Response)
        → handle_post_request http files h suffix request r s ≡ returned true s' r'
        → IsWritable files (new_file http files h suffix s) (disk_with_folder http files h suffix s)
        → (r₂ : Response) × (handle_get_request http files h
              (suffix ++ (codes "/" ++ to_string (new_id http files h suffix s)))
              r''
              s'
            ≡ returned true s' r₂)
          × (status_of r₂ ≡ ok)
          × (body_of r₂ ≡ body request)
    get_after_post s' r' r'' e w =
        let same = (post_result s' r' e).0 in
        let path = path_of_id h.dir suffix (to_string (new_id http files h suffix s)) in
        let content = body request in
        (
          prepare_payload (set_body content (result ok r'')),
          get_file http files h _ content r'' s' (rw (path, same) (w.written_is_file content))
              (rw (path, same) (w.written content)),
          simp (laws.status_of-prepare_payload, laws.status_of-set_body, laws.status_of-result),
          simp (laws.body_of-prepare_payload, laws.body_of-set_body),
        )

pub all_digits-AllDigits : (s : Bytes) → all_digits s ≡ true → AllDigits s
unfolding all_digits
all_digits-AllDigits [] h = tt
all_digits-AllDigits (c ∷ s) h = (ground arith, all_digits-AllDigits s (ground arith))

-- A PUT whose id is a text of digits that spells more than the largest int throws an exception that
-- the handler does not catch, and changes nothing.
pub put_throws :
    (http : Http) (files : FileSystem) (h : Handler) (suffix : Bytes) (request : http.Request)
    (r : http.Response) (s : Store http files)
    → id_name_of suffix ≢ []
    → all_digits (id_name_of suffix) ≡ true
    → int_max < decimal 0 (id_name_of suffix)
    → handle_put_request http files h suffix request r s ≡ threw s
unfolding handle_put_request id_of
put_throws http files h suffix request r s ne digits big =
    let spelled =
      stoi_digits (id_name_of suffix) ne (all_digits-AllDigits (id_name_of suffix) digits) in
    ground arith
