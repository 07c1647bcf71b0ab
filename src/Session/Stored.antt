-- ===== src/Session/Stored.antt =====
-- What one request to a crud handler stores and the next one reads, from the bytes of src/session.cc to the
-- handler and back: the session, the factory, the handler and its table together.
use ucla_cs130_googolplex.Prelude.{
  Bytes, codes, equal, equal_iff, Bool-cases, ◌++◌, Bool, true, [], ◌∷◌, some, ◌≡◌, refl, sym, ap,
  ◌∙◌, inl, inr,
}
use ucla_cs130_googolplex.Std.Dict.{Dict, find, contains, assign, find-assign_self, contains-assign}
use ucla_cs130_googolplex.Http.{Http, IsHttp, ok, get, put}
use ucla_cs130_googolplex.Files.{FileSystem, IsWritable}
use ucla_cs130_googolplex.Handler.{Handler}
use ucla_cs130_googolplex.Factory.{Factory, crud, made, create}
use ucla_cs130_googolplex.Crud
use ucla_cs130_googolplex.Crud.Lasting.{IsFor, handle_all, put_lasts}
use ucla_cs130_googolplex.Crud.Putting.{put_path, disk_for_put}
use ucla_cs130_googolplex.TextGen.Api.{Service}
use ucla_cs130_googolplex.Session.Search.{found, search_addr_binding}
use ucla_cs130_googolplex.Session.Search.Same.{search_addr_binding_same}
use ucla_cs130_googolplex.Session.Reply.{
  World, replied, returned, handle_request, finish, serve, route, empty_response,
}
use ucla_cs130_googolplex.Session.Connection.{Connection, reading, Reachable}
use ucla_cs130_googolplex.Session.Received.{outcome_of}
use ucla_cs130_googolplex.Session.Risks.{handler_of}
use ucla_cs130_googolplex.Session.Conversation.{IsShort, talk, replies_to, talk-replies_to}

-- A location that is there already.
contains-assign_there {ℓ} :
    {V : Type ℓ} (k : Bytes) (v w : V) (m : Dict V) (l : Bytes)
    → find k m ≡ some w
    → contains l (assign k v m) ≡ contains l m
unfolding contains
contains-assign_there k v w m l there = elim (Bool-cases (equal k l)) [
  | inl same ↦
      let here : find l m ≡ some w = ap (λ j. find j m) (sym ((equal_iff k l).0 same)) ∙ there in
      rw (contains-assign k l v m, same, contains, here) refl
  | inr other ↦ rw (contains-assign k l v m, other) refl
]

module _ (http : Http) (files : FileSystem) (service : Service) (client_ip location : Bytes) where
  open http use {Request, Response, target, parse}

  -- The store of a crud factory.
  abbrev pub store_at : Factory → World http files service → Crud.Store http files
  store_at f w = record { table = f.file_to_id; disk = w.disk }

  -- What a request to it leaves.
  abbrev pub world_of :
      Factory → World http files service → Crud.Store http files → World http files service
  world_of f w s = record {
    routes = assign location (record f { file_to_id = s.table }) w.routes;
    disk = s.disk;
  }

  -- A request for a location with a crud factory, as the session answers it.
  module _ (f : Factory) (w : World http files service) (request : Request) (b : Bool)
      (s : Crud.Store http files) (r : Response) where
    crud_made :
        f.kind ≡ crud → create files f client_ip w.disk ≡ made (handler_of f client_ip, w.disk)
    unfolding create
    crud_made is_crud = rw (create, is_crud) refl

    crud_handled :
        f.kind ≡ crud
        → Crud.handle_request http files
            (handler_of f client_ip)
            request
            (empty_response http files service)
            (store_at f w)
          ≡ Crud.returned b s r
        → handle_request http files service f
            (handler_of f client_ip)
            request
            (empty_response http files service)
            w.disk
          ≡ returned s.table s.disk r
    unfolding handle_request
    crud_handled is_crud e = rw (handle_request, is_crud) (rw e refl)

    crud_served :
        (text : Bytes)
        → parse text ≡ some request
        → search_addr_binding (target request ++ codes "/") w.routes ≡ found location
        → find location w.routes ≡ some f
        → f.kind ≡ crud
        → Crud.handle_request http files
            (handler_of f client_ip)
            request
            (empty_response http files service)
            (store_at f w)
          ≡ Crud.returned b s r
        → outcome_of {http = http} {files = files} {service = service} client_ip text w
          ≡ replied (world_of f w s) r
    unfolding route serve finish
    crud_served text parsed searched there is_crud e =
        rw (outcome_of, parsed)
          (rw (route, searched)
            (rw there (rw (serve, crud_made is_crud) (rw (crud_handled is_crud e) refl))))

module _ {http : Http} (laws : IsHttp http) (files : FileSystem) (service : Service)
    (c : Connection) (location suffix : Bytes) (f : Factory) (w : World http files service)
    (put_text get_text : Bytes) (put_request get_request : http.Request) (s : Crud.Store http files)
    (r : http.Response) where
  open http use {Response, target, parse, method, body, print_response, status_of, body_of}

  abbrev pub the_handler : Handler
  the_handler = handler_of f c.client_ip

  abbrev pub before_put : Crud.Store http files
  before_put = store_at http files service c.client_ip location f w

  abbrev stored : World http files service
  stored = world_of http files service c.client_ip location f w s

  abbrev f' : Factory
  f' = record f { file_to_id = s.table }

  -- A session that reads, in any state that it can reach, and is sent a PUT and then a GET for one
  -- file, each of fewer than 1024 bytes and none of them zero, by urls that are routed to one
  -- location with a crud factory and accepted by its handler, writes the reply of the PUT and then
  -- 200 with the content that was put, if the PUT succeeds and the file can be written on the disk
  -- with the folder of the entity.
  pub put_then_get :
      Reachable http files service c w
      → c.phase ≡ reading
      → IsShort put_text
      → IsShort get_text
      → parse put_text ≡ some put_request
      → parse get_text ≡ some get_request
      → search_addr_binding (target put_request ++ codes "/") w.routes ≡ found location
      → search_addr_binding (target get_request ++ codes "/") w.routes ≡ found location
      → find location w.routes ≡ some f
      → f.kind ≡ crud
      → method put_request ≡ put
      → method get_request ≡ get
      → IsFor http files the_handler put_request suffix
      → IsFor http files the_handler get_request suffix
      → Crud.handle_request http files the_handler put_request
          (empty_response http files service)
          before_put
        ≡ Crud.returned true s r
      → IsWritable files
          (put_path http files the_handler suffix before_put)
          (disk_for_put http files the_handler suffix before_put)
      → (r₂ : Response) × (w' : World http files service) × (talk http files service
            (put_text ∷ get_text ∷ [])
            c
            w
          ≡ some (print_response r ∷ print_response r₂ ∷ [], w'))
        × (status_of r₂ ≡ ok)
        × (body_of r₂ ≡ body put_request)
  unfolding replies_to handle_all
  put_then_get reach phase put_short get_short put_parsed get_parsed put_found get_found there
        is_crud by_put by_get put_valid get_valid done writable =
      let (r₂, got, status, content) =
        put_lasts laws files the_handler suffix before_put s put_request
          (empty_response http files service) r [] get_request (empty_response http files service)
          by_put put_valid done writable tt by_get get_valid in
      let first =
        crud_served http files service c.client_ip location f w put_request true s r put_text
          put_parsed put_found there is_crud done in
      let found' : search_addr_binding (target get_request ++ codes "/") stored.routes
          ≡ found location =
        search_addr_binding_same w.routes stored.routes
          (λ l. contains-assign_there location f' f w.routes l there)
          (target get_request ++ codes "/")
        ∙ get_found in
      let second =
        crud_served http files service c.client_ip location f' stored get_request true s r₂ get_text
          get_parsed found' (find-assign_self location f' w.routes) is_crud got in
      (
        r₂,
        world_of http files service c.client_ip location f' stored s,
        talk-replies_to (put_text ∷ get_text ∷ []) c w reach phase (put_short, (get_short, tt))
            ∙ rw (replies_to, first) (rw (replies_to, second) refl),
        status,
        content,
      )
