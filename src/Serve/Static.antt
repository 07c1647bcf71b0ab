-- ===== src/Serve/Static.antt =====
-- src/request_handler_static.cc
use ucla_cs130_googolplex.Prelude.{
  ℕ, Bytes, codes, length, length-append, ltb, if◌then◌else◌, Bool, true, false, ◌&&◌, ◌∷◌, ◌++◌,
  append_assoc, Option, none, some, ◌≡◌, sym, ◌∙◌, arith,
}
use ucla_cs130_googolplex.Std.Strings.{drop, find, pop_back_while}
use ucla_cs130_googolplex.Std.Strings.Prefix.{find-append, drop-append}
use ucla_cs130_googolplex.Http.{Http, IsHttp, ok, not_found, content_type}
use ucla_cs130_googolplex.Files.{FileSystem, IsText}
use ucla_cs130_googolplex.ContentType.{get_content_type}
use ucla_cs130_googolplex.Handler.{Handler, at_front, not_found_msg}

module _ (http : Http) (files : FileSystem) where
  open http use {
    Request, Response, target, result, set, set_body, prepare_payload, status_of, body_of, field_of,
  }
  open files use {Disk, read, resize_fails, extension}

  -- `set_content_type`, without the extension that it returns, which the caller drops
  unfoldable pub set_content_type : Bytes → Response → Response
  set_content_type file_path r = set content_type (get_content_type (extension file_path)) r

  unfoldable pub static_not_found : Response → Response
  static_not_found r =
      prepare_payload
        (set_body not_found_msg (set content_type (codes "text/html") (result not_found r)))

  -- `none` where the handler throws
  unfoldable pub handle_static_request :
      Handler → Request → Response → Disk → Option (Bool × Response)
  unfolding static_not_found set_content_type
  handle_static_request h request r d =
      let prefix = h.prefix ++ codes "/" in
      let url = target request in
      if at_front (find prefix url) && ltb (length prefix) (length url)
      then (let path = pop_back_while b'/' (h.dir ++ (codes "/" ++ drop (length prefix) url)) in
          if resize_fails path d then none else elim (read path d) [
            | some content ↦
                some
                  (true, prepare_payload (set_body content (set_content_type path (result ok r))))
            | none ↦ some (false, static_not_found r)
          ])
      else some (false, static_not_found r)

  -- The path that the handler reads for what stands behind the prefix.
  abbrev pub served_path : Handler → Bytes → Bytes
  served_path h rest = pop_back_while b'/' (h.dir ++ (codes "/" ++ rest))

module _ (http : Http) (files : FileSystem) (h : Handler) (request : http.Request) where
  -- The file that the url names cannot be read into a string, although it can be opened.
  abbrev pub IsUnsized : files.Disk → Type 0
  IsUnsized d =
      files.resize_fails
        (served_path http files h (drop (length (h.prefix ++ codes "/")) (http.target request))) d
      ≡ true

  pub static_threw :
      (r : http.Response) (d : files.Disk)
      → handle_static_request http files h request r d ≡ none
      → IsUnsized d
  unfolding handle_static_request
  static_threw r d e = ground arith

module _ {http : Http} (laws : IsHttp http) (files : FileSystem) (h : Handler)
    (request : http.Request) (r : http.Response) (d : files.Disk) where
  open http use {target, status_of, body_of, field_of}

  -- The response with the file of what stands behind the prefix.
  abbrev page_of : Bytes → Bytes → http.Response
  page_of rest content = http.prepare_payload (
      http.set_body content (
        http.set content_type (get_content_type (files.extension (served_path http files h rest)))
          (http.result ok r)))

  static_reply :
      (c : ℕ) (rest content : Bytes)
      → target request ≡ h.prefix ++ (codes "/" ++ c ∷ rest)
      → IsText files (served_path http files h (c ∷ rest)) content d
      → handle_static_request http files h request r d ≡ some (true, page_of (c ∷ rest) content)
  unfolding handle_static_request
  static_reply c rest content e found =
      let p = h.prefix ++ codes "/" in
      let e' : target request ≡ p ++ (c ∷ rest) =
        e ∙ sym (append_assoc h.prefix (codes "/") (c ∷ rest)) in
      rw e' (
        ground
          (arith, find-append p (c ∷ rest), drop-append p (c ∷ rest), length-append p (c ∷ rest)))

  -- For a url behind the prefix the static handler replies 200 with the file of the same path below
  -- its directory, if that can be read, and with the content type of its extension; nothing is
  -- asked of the rest of the url, which may hold "..".
  pub static_serves :
      (c : ℕ) (rest content : Bytes)
      → target request ≡ h.prefix ++ (codes "/" ++ c ∷ rest)
      → IsText files (served_path http files h (c ∷ rest)) content d
      → (r' : http.Response) × (handle_static_request http files h request r d ≡ some (true, r'))
        × (status_of r' ≡ ok)
        × (body_of r' ≡ content)
        × (field_of content_type r'
            ≡ some (get_content_type (files.extension (served_path http files h (c ∷ rest)))))
  static_serves c rest content e text = (
    page_of (c ∷ rest) content,
    static_reply c rest content e text,
    simp (
      laws.status_of-prepare_payload, laws.status_of-set_body, laws.status_of-set,
      laws.status_of-result,
    ),
    simp (laws.body_of-prepare_payload, laws.body_of-set_body),
    simp (laws.field_of-prepare_payload, laws.field_of-set_body, laws.field_of-set_self),
  )
