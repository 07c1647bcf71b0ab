-- ===== src/Session/Pages.antt =====
-- A page from the url to the response: src/session.cc, the factory and the static handler together.
use ucla_cs130_googolplex.Prelude.{ℕ, Bytes, codes, Bool, true, ◌∷◌, ◌++◌, some, ◌≡◌, refl}
use ucla_cs130_googolplex.Std.Dict.{find, assign}
use ucla_cs130_googolplex.Http.{Http, IsHttp, ok, content_type}
use ucla_cs130_googolplex.Files.{FileSystem, IsText}
use ucla_cs130_googolplex.ContentType.{get_content_type}
use ucla_cs130_googolplex.Handler.{Handler}
use ucla_cs130_googolplex.Factory.{Factory, static, made, create}
use ucla_cs130_googolplex.Serve.Static.{handle_static_request, served_path, static_serves}
use ucla_cs130_googolplex.TextGen.Api.{Service}
use ucla_cs130_googolplex.Session.Search.{found, search_addr_binding}
use ucla_cs130_googolplex.Session.Reply.{
  World, replied, returned, of_static, handle_request, serve, route, empty_response,
}

module _ {http : Http} (laws : IsHttp http) (files : FileSystem) (service : Service)
    (client_ip : Bytes) (request : http.Request) (w : World http files service) (f : Factory)
    (location : Bytes) where
  open http use {Response, target, status_of, body_of, field_of}

  -- The handler that the factory makes for the client.
  abbrev pub page_handler : Handler
  page_handler = record { client_ip = client_ip; prefix = f.arg.location; dir = f.arg.root }

  module _ (is_static : f.kind ≡ static) (b : Bool) (r : Response)
      (served : handle_static_request http files page_handler request
          (empty_response http files service)
          w.disk
        ≡ some (b, r)) where
    created : create files f client_ip w.disk ≡ made (page_handler, w.disk)
    unfolding create
    created = rw (create, is_static) refl

    handled :
        handle_request http files service f page_handler request
          (empty_response http files service)
          w.disk
        ≡ returned f.file_to_id w.disk r
    unfolding handle_request of_static
    handled = rw (handle_request, is_static, served) refl

    serve_static :
        serve http files service location f client_ip request w
        ≡ replied (record w { routes = assign location f w.routes }) r
    unfolding serve
    serve_static = rw (serve, created) (rw handled refl)

  -- A request that is routed to a location whose factory is that of a static handler, for a url
  -- that goes on behind the location of the entry with a slash and a path, is answered by 200 with
  -- the file of that path below the root and its content type, if that file can be read, and
  -- changes neither the disk nor a factory.
  pub page_served :
      (c : ℕ) (rest content : Bytes)
      → search_addr_binding (target request ++ codes "/") w.routes ≡ found location
      → find location w.routes ≡ some f
      → f.kind ≡ static
      → target request ≡ f.arg.location ++ (codes "/" ++ c ∷ rest)
      → IsText files (served_path http files page_handler (c ∷ rest)) content w.disk
      → (r : Response) × (route http files service client_ip request w
          ≡ replied (record w { routes = assign location f w.routes }) r)
        × (status_of r ≡ ok)
        × (body_of r ≡ content)
        × (field_of content_type r
            ≡ some (
                get_content_type
                  (files.extension (served_path http files page_handler (c ∷ rest)))))
  unfolding route
  page_served c rest content e₁ e₂ kind url text =
      let (r, served, status, body, type) =
        static_serves laws files page_handler request (empty_response http files service) w.disk c
          rest content url text in
      (r, rw (route, e₁) (rw e₂ (serve_static kind true r served)), status, body, type)
