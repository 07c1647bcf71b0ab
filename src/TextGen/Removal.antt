-- ===== src/TextGen/Removal.antt =====
-- What a DELETE to the text generator (src/request_handler_text_gen.cc) removes.
use ucla_cs130_googolplex.Prelude.{ℕ, Bytes, codes, true, false, ◌∷◌, ◌++◌, some, ◌≡◌, arith}
use ucla_cs130_googolplex.Std.Strings.{pop_back_while}
use ucla_cs130_googolplex.Http.{Http, IsHttp, ok}
use ucla_cs130_googolplex.Files.{FileSystem, IsFolder}
use ucla_cs130_googolplex.Handler.{Handler}
use ucla_cs130_googolplex.Handler.Url.{check_request_url-key}
use ucla_cs130_googolplex.TextGen.Api.{Service}
use ucla_cs130_googolplex.TextGen.Input.{replace_space}
use ucla_cs130_googolplex.TextGen.{
  returned, client_folder, removed_fields, reply_json, json_response, remove_title, get_title_file,
  handle_delete_request,
}

module _ {http : Http} (laws : IsHttp http) (files : FileSystem) (service : Service) (h : Handler)
    (request : http.Request) (r : http.Response) (d d' : files.Disk) where
  open http use {Response, target, status_of, body_of}
  open files use {status_fails, is_regular_file, remove_file}
  open service use {dump}

  abbrev folder : Bytes
  folder = client_folder http files service h

  get_title_file_removes :
      (suffix content : Bytes)
      → IsFolder files folder d
      → status_fails (folder ++ (codes "/" ++ suffix)) d ≡ false
      → is_regular_file (folder ++ (codes "/" ++ suffix)) d ≡ true
      → remove_file (folder ++ (codes "/" ++ suffix)) d ≡ some d'
      → dump (removed_fields http files service h suffix) ≡ some content
      → get_title_file http files service h folder suffix true r d
        ≡ returned true d' (json_response http files service r content)
  unfolding get_title_file remove_title reply_json
  get_title_file_removes suffix content e₁ e₂ e₃ e₄ e₅ = ground arith

  -- A DELETE to the text generator of a regular file removes it and replies 200, if the folder of
  -- the client is there, the removal succeeds and the reply can be dumped; the file is what the url
  -- names behind the prefix, from the folder of the client, and nothing is asked of that name,
  -- which may hold "..".
  pub delete_removes :
      (c : ℕ) (rest content : Bytes)
      → replace_space (target request) ≡ h.prefix ++ (codes "/" ++ c ∷ rest)
      → IsFolder files folder d
      → status_fails (folder ++ (codes "/" ++ pop_back_while b'/' (c ∷ rest))) d ≡ false
      → is_regular_file (folder ++ (codes "/" ++ pop_back_while b'/' (c ∷ rest))) d ≡ true
      → remove_file (folder ++ (codes "/" ++ pop_back_while b'/' (c ∷ rest))) d ≡ some d'
      → dump (removed_fields http files service h (pop_back_while b'/' (c ∷ rest))) ≡ some content
      → (r' : Response) × (handle_delete_request http files service h request r d
          ≡ returned true d' r')
        × (status_of r' ≡ ok)
        × (body_of r' ≡ content)
  unfolding handle_delete_request
  delete_removes c rest content e e₁ e₂ e₃ e₄ e₅ = (
    json_response http files service r content,
    rw (e, check_request_url-key h c rest false)
        (get_title_file_removes (pop_back_while b'/' (c ∷ rest)) content e₁ e₂ e₃ e₄ e₅),
    simp (
      laws.status_of-prepare_payload, laws.status_of-set, laws.status_of-set_body,
      laws.status_of-result,
    ),
    simp (laws.body_of-prepare_payload, laws.body_of-set, laws.body_of-set_body),
  )
