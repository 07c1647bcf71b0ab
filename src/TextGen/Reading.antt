-- ===== src/TextGen/Reading.antt =====
-- A GET behind a POST, in src/request_handler_text_gen.cc.
use ucla_cs130_googolplex.Prelude.{
  ℕ, Bytes, codes, equal, not-equal, length, Bool, true, false, [], ◌∷◌, ◌++◌, some, ◌≡◌, ◌≢◌, refl,
  subst, ap, ◌∙◌, arith,
}
use ucla_cs130_googolplex.Std.Number.{is_digit}
use ucla_cs130_googolplex.Http.{Http, IsHttp, ok, content_type}
use ucla_cs130_googolplex.Files.{FileSystem, IsText, IsFolder}
use ucla_cs130_googolplex.Handler.{Handler, create_dir, check_request_url, read_from_file}
use ucla_cs130_googolplex.Handler.Url.{check_request_url-key}
use ucla_cs130_googolplex.TextGen.Api.{Service}
use ucla_cs130_googolplex.TextGen.Input.{Post, parse_post_body, replace_space, all_of, in_title}
use ucla_cs130_googolplex.TextGen.Escape.{
  NoPercent, escape_space, replace_space-append, replace_space-escape_space, pop_back_while_other,
}
use ucla_cs130_googolplex.TextGen.{
  returned, client_folder, entry_of, status_fields, json_response, reply_json, read_title,
  get_title_file, get_suffix, handle_post_request, handle_get_request,
}
use ucla_cs130_googolplex.TextGen.Posting.{IsTitle, Stored, accepted_post-Stored}

-- A disk on which a file can be written in a folder.
pub record IsStorable (files : FileSystem) (folder path : Bytes) (d : files.Disk) : Type 0 where
  pub written : (content : Bytes) → IsText files path content (files.write path content d)
  pub written_status :
      (content : Bytes) → files.status_fails path (files.write path content d) ≡ false
  pub written_is_file :
      (content : Bytes) → files.is_regular_file path (files.write path content d) ≡ true
  pub folder_is_directory : (content : Bytes) → IsFolder files folder (files.write path content d)

-- What is dumped is parsed again.
pub record IsJson (service : Service) : Type 0 where
  pub parse_json-dump :
      (j : service.Json) (t : Bytes) → service.dump j ≡ some t → service.parse_json t ≡ some j

in_title-percent : (c : ℕ) → in_title c ≡ true → c ≢ b'%'
unfolding in_title is_digit
in_title-percent c h e =
    let bad : in_title 37 ≡ true = subst (λ n. in_title n ≡ true) e h in ground arith

title-NoPercent : (s : Bytes) → all_of in_title s ≡ true → NoPercent s
unfolding all_of
title-NoPercent [] h = tt
title-NoPercent (c ∷ s) h = (in_title-percent c (ground arith), title-NoPercent s (ground arith))

-- A title is not the word that asks for the list of titles.
title-ne-history : (s : Bytes) → all_of in_title s ≡ true → s ≢ codes "history?"
unfolding all_of in_title is_digit
title-ne-history s h e =
    let bad : all_of in_title (codes "history?") ≡ true =
      subst (λ t. all_of in_title t ≡ true) e h in
    ground arith

unescaped :
    (p title : Bytes)
    → NoPercent p
    → all_of in_title title ≡ true
    → replace_space (p ++ (codes "/" ++ escape_space title)) ≡ p ++ (codes "/" ++ title)
unescaped p title h k =
    replace_space-append p (codes "/" ++ escape_space title) h
    ∙ ap (λ t. p ++ t)
        (replace_space-append (codes "/") (escape_space title) (λ e. absurd (omega (arith, e)), tt)
          ∙ ap (λ t. codes "/" ++ t) (replace_space-escape_space title (title-NoPercent title k)))

title_key :
    (h : Handler) (title : Bytes) (for_get : Bool)
    → NoPercent h.prefix
    → IsTitle title
    → check_request_url h (replace_space (h.prefix ++ (codes "/" ++ escape_space title))) for_get
      ≡ (true, title)
title_key h [] for_get p v = absurd (omega (arith, v.at_least))
title_key h (c ∷ title) for_get p v =
    ap (λ url. check_request_url h url for_get) (unescaped h.prefix (c ∷ title) p v.allowed)
    ∙ check_request_url-key h c title for_get
    ∙ ap (λ key. (true, key)) (pop_back_while_other b'/' (c ∷ title) v.no_slash)

module _ {http : Http} (laws : IsHttp http) (files : FileSystem) (service : Service)
    (json : IsJson service) (h : Handler) where
  open http use {Request, Response, target, body, status_of, body_of, field_of}
  open files use {Disk, status_fails, is_regular_file}
  open service use {dump, parse_json, Json}

  abbrev folder : Bytes
  folder = client_folder http files service h

  abbrev path_of : Bytes → Bytes
  path_of title = folder ++ (codes "/" ++ title)

  -- What a GET of a stored entry replies.
  abbrev pub shown : Bytes → Json → Json
  shown title j = status_fields http files service h (codes "readed") title j

  read_title-entry :
      (title entry content : Bytes) (j : Json) (r : Response) (d : Disk)
      → IsText files (path_of title) entry d
      → parse_json entry ≡ some j
      → dump (shown title j) ≡ some content
      → read_title http files service h (path_of title) title r d
        ≡ returned true d (json_response http files service r content)
  unfolding read_title read_from_file reply_json
  read_title-entry title entry content j r d found parsed dumped = ground arith

  get_title_file-entry :
      (title : Bytes) (r : Response) (d : Disk)
      → IsFolder files folder d
      → status_fails (path_of title) d ≡ false
      → is_regular_file (path_of title) d ≡ true
      → get_title_file http files service h folder title false r d
        ≡ read_title http files service h (path_of title) title r d
  unfolding get_title_file
  get_title_file-entry title r d there known file = ground arith

  get_suffix-title :
      (title : Bytes) (r : Response) (d : Disk)
      → IsTitle title
      → get_suffix http files service h title r d
        ≡ get_title_file http files service h folder title false r d
  unfolding get_suffix
  get_suffix-title title r d v =
      let filled : equal title [] ≡ false =
        not-equal title [] (λ e. absurd (omega (arith, v.at_least, ap length e))) in
      let other : equal title (codes "history?") ≡ false =
        not-equal title (codes "history?") (title-ne-history title v.allowed) in
      rw (filled, other) refl

  -- The file of a title that was stored is found by its url.
  get_of_stored :
      (title entry content : Bytes) (j : Json) (request : Request) (r : Response) (d d' : Disk)
      → IsTitle title
      → IsStorable files folder (path_of title) d
      → d' ≡ files.write (path_of title) entry d
      → NoPercent h.prefix
      → target request ≡ h.prefix ++ (codes "/" ++ escape_space title)
      → parse_json entry ≡ some j
      → dump (shown title j) ≡ some content
      → handle_get_request http files service h request r d'
        ≡ returned true d' (json_response http files service r content)
  unfolding handle_get_request
  get_of_stored title entry content j request r d d' v w stored p asked parsed dumped =
      rw (asked, title_key h title true p v)
        (get_suffix-title title r d' v
          ∙ rw stored (
              get_title_file-entry title r _ (w.folder_is_directory entry) (w.written_status entry)
                (w.written_is_file entry)
              ∙ read_title-entry title entry content j r _ (w.written entry) parsed dumped))

  -- Behind a POST to the text generator that succeeds, a GET of the title, with its spaces written
  -- as %20, replies 200 with the JSON of the entry that was stored, the text of the reply to the
  -- POST in it, if the prefix of the handler has no percent sign, the file can be written in the
  -- folder of the client, what is dumped as JSON is parsed again, and the reply can be dumped.
  pub get_after_text_post :
      (api_key : Bytes) (post_request get_request : Request) (r r' r'' : Response) (d d' : Disk)
      (p : Post) (content : Bytes)
      → handle_post_request http files service h api_key post_request r d ≡ returned true d' r'
      → parse_post_body http (body post_request) ≡ some p
      → IsStorable files folder (path_of p.title) (create_dir files folder d).1
      → NoPercent h.prefix
      → target get_request ≡ h.prefix ++ (codes "/" ++ escape_space p.title)
      → dump (shown p.title (entry_of http files service p.title p.prompt (body_of r')))
        ≡ some content
      → (r₂ : Response) × (handle_get_request http files service h get_request r'' d'
          ≡ returned true d' r₂)
        × (status_of r₂ ≡ ok)
        × (body_of r₂ ≡ content)
        × (field_of content_type r₂ ≡ some (codes "application/json"))
  get_after_text_post api_key post_request get_request r r' r'' d d' p content posted parsed w
        no_percent asked dumped =
      let (q, output, parsed', prompt, title, answered, kept) =
        accepted_post-Stored laws files service h api_key post_request r d d' r' posted in
      let same : q ≡ p = ground arith in
      let v : IsTitle p.title = subst (λ (q : Post). IsTitle q.title) same title in
      let stored : Stored laws files service h api_key post_request r d p output d' r' =
        subst (λ q. Stored laws files service h api_key post_request r d q output d' r') same
          kept in
      let entry : dump (entry_of http files service p.title p.prompt (body_of r'))
          ≡ some stored.entry =
        rw stored.text stored.dumped in
      (
        json_response http files service r'' content,
        get_of_stored p.title stored.entry content
            (entry_of http files service p.title p.prompt (body_of r')) get_request r''
            (create_dir files folder d).1 d' v w stored.stored no_percent asked
            (json.parse_json-dump _ stored.entry entry) dumped,
        simp (
          laws.status_of-prepare_payload, laws.status_of-set, laws.status_of-set_body,
          laws.status_of-result,
        ),
        simp (laws.body_of-prepare_payload, laws.body_of-set, laws.body_of-set_body),
        simp (laws.field_of-prepare_payload, laws.field_of-set_self),
      )
