-- ===== src/Crud/Lasting.antt =====
-- What a GET gives behind a PUT to the crud handler (src/request_handler_crud.cc) and any requests for
-- other files.
use ucla_cs130_googolplex.Prelude.{
  Bytes, Bool, true, false, List, [], ◌∷◌, All, Option, ◌≡◌, refl, sym, ap, ◌∙◌,
}
use ucla_cs130_googolplex.Http.{Http, IsHttp, ok, get, put}
use ucla_cs130_googolplex.Files.{FileSystem, IsFile, IsText, IsWritable}
use ucla_cs130_googolplex.Handler.{Handler, check_request_url}
use ucla_cs130_googolplex.Crud.Posting.{get_file}
use ucla_cs130_googolplex.Crud.Putting.{disk_for_put, put_path, put_writes}
use ucla_cs130_googolplex.Crud.Frame.Disks.{disk_of}
use ucla_cs130_googolplex.Crud.Frame.{IsForeign, handle_request_keeps}
use ucla_cs130_googolplex.Crud.{
  Store, Handled, returned, threw, handle_get_request, handle_put_request, dispatch, handle_request,
}

-- What a handler sees of a file: its content, whether it is there, and whether it is a folder, and
-- whether one of these cannot be had.
abbrev pub look_at :
    (files : FileSystem) → Bytes → files.Disk → Option Bytes × Bool × Bool × Bool × Bool
look_at files path d = (
  files.read path d,
  files.exists path d,
  files.is_directory path d,
  files.status_fails path d,
  files.resize_fails path d,
)

module _ {files : FileSystem} (path : Bytes) where
  seen-IsFile :
      (d d' : files.Disk)
      → look_at files path d ≡ look_at files path d'
      → IsFile files path d'
      → IsFile files path d
  seen-IsFile d d' same v = record {
    status = ap (λ l. l.3) same ∙ v.status;
    here = ap (λ l. l.1) same ∙ v.here;
    file = ap (λ l. l.2) same ∙ v.file;
  }

  seen-IsText :
      (content : Bytes) (d d' : files.Disk)
      → look_at files path d ≡ look_at files path d'
      → IsText files path content d'
      → IsText files path content d
  seen-IsText content d d' same v = record {
    whole = ap (λ l. l.4) same ∙ v.whole;
    text = ap (λ l. l.0) same ∙ v.text;
  }

module _ (http : Http) (files : FileSystem) (h : Handler) where
  open http use {Request, Response, method, target}

  -- The url of a request is accepted and names a file below the folder of the handler.
  abbrev pub IsFor : Request → Bytes → Type 0
  IsFor request suffix = check_request_url h (target request) false ≡ (true, suffix)

  -- What the handler leaves, also where it throws.
  abbrev pub store_of : Handled http files → Store http files
  store_of (returned b s r) = s
  store_of (threw s) = s

  -- One request behind the other, each with the response that the handler is given.
  unfoldable pub handle_all : List (Request × Response) → Store http files → Store http files
  handle_all [] s = s
  handle_all ((request, r) ∷ requests) s =
      handle_all requests (store_of (handle_request http files h request r s))

  -- What is done for the request does not show at the file of `path`.
  abbrev pub IsElsewhere : Bytes → Request × Response → Type 0
  IsElsewhere path q =
      IsForeign http files h (look_at files path) (check_request_url h (target q.0) false).1

  store_of-disk : (o : Handled http files) → (store_of o).disk ≡ disk_of o
  store_of-disk (returned b s r) = refl
  store_of-disk (threw s) = refl

  handle_all_keeps :
      (path : Bytes) (requests : List (Request × Response)) (s : Store http files)
      → All (IsElsewhere path) requests
      → look_at files path (handle_all requests s).disk ≡ look_at files path s.disk
  unfolding handle_all
  handle_all_keeps path [] s h' = refl
  handle_all_keeps path ((request, r) ∷ requests) s (foreign, h') =
      handle_all_keeps path requests _ h'
      ∙ (ap (look_at files path) (store_of-disk (handle_request http files h request r s))
          ∙ handle_request_keeps http files h (look_at files path) request r s foreign)

  handle_request_put :
      (suffix : Bytes) (request : Request) (r : Response) (s : Store http files)
      → method request ≡ put
      → IsFor request suffix
      → handle_request http files h request r s ≡ handle_put_request http files h suffix request r s
  unfolding handle_request dispatch
  handle_request_put suffix request r s by_put valid = rw (valid, by_put) refl

  handle_request_get :
      (suffix : Bytes) (request : Request) (r : Response) (s : Store http files)
      → method request ≡ get
      → IsFor request suffix
      → handle_request http files h request r s ≡ handle_get_request http files h suffix r s
  unfolding handle_request dispatch
  handle_request_get suffix request r s by_get valid = rw (valid, by_get) refl

module _ {http : Http} (laws : IsHttp http) (files : FileSystem) (h : Handler) (suffix : Bytes)
    (s s' : Store http files) (request : http.Request) (r r' : http.Response) where
  open http use {
    Request, Response, method, body, status_of, body_of, result, set_body, prepare_payload,
  }

  abbrev path : Bytes
  path = put_path http files h suffix s

  -- Behind a PUT that succeeds and any requests, whatever their outcomes, in which what is done to
  -- the folders and files that their urls name does not show at the file that was put, a GET of
  -- that file returns 200 with the content that was put, if the file can be written on the disk
  -- with the folder of the entity.
  pub put_lasts :
      (requests : List (Request × Response)) (read : Request) (r'' : Response)
      → method request ≡ put
      → IsFor http files h request suffix
      → handle_request http files h request r s ≡ returned true s' r'
      → IsWritable files path (disk_for_put http files h suffix s)
      → All (IsElsewhere http files h path) requests
      → method read ≡ get
      → IsFor http files h read suffix
      → (r₂ : Response) × (handle_request http files h read r''
            (handle_all http files h requests s')
          ≡ returned true (handle_all http files h requests s') r₂)
        × (status_of r₂ ≡ ok)
        × (body_of r₂ ≡ body request)
  put_lasts requests read r'' by_put put_valid e w elsewhere by_get get_valid =
      let content = body request in
      let s'' = handle_all http files h requests s' in
      let here =
        put_writes http files h suffix s s' request r r'
          (sym (handle_request_put http files h suffix request r s by_put put_valid) ∙ e) in
      let same = handle_all_keeps http files h path requests s' elsewhere in
      (
        prepare_payload (set_body content (result ok r'')),
        handle_request_get http files h suffix read r'' s'' by_get get_valid
            ∙ get_file http files h suffix content r'' s''
                (seen-IsFile path s''.disk s'.disk same (rw here (w.written_is_file content)))
                (seen-IsText path content s''.disk s'.disk same (rw here (w.written content))),
        simp (laws.status_of-prepare_payload, laws.status_of-set_body, laws.status_of-result),
        simp (laws.body_of-prepare_payload, laws.body_of-set_body),
      )
