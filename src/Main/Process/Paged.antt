-- ===== src/Main/Process/Paged.antt =====
-- A page of src/server_main.cc's server, from the configuration file to the bytes that are sent.
use ucla_cs130_googolplex.Prelude.{
  ℕ, Bytes, codes, true, false, length, ◌<◌, ◌≤◌, All, List, [], ◌∷◌, ◌++◌, append_assoc, Option,
  some, Option-cases, ◌≡◌, ◌≢◌, refl, sym, subst, ap, inl, inr, ◌∙◌, arith,
}
use ucla_cs130_googolplex.Prelude.Int.{negsuc, pos}
use ucla_cs130_googolplex.Std.Dict.{Dict, find, contains}
use ucla_cs130_googolplex.Std.Strings.{pop_back_while}
use ucla_cs130_googolplex.Http.{Http, IsHttp, ok, content_type}
use ucla_cs130_googolplex.Files.{FileSystem, IsText}
use ucla_cs130_googolplex.ContentType.{get_content_type}
use ucla_cs130_googolplex.Config.Arg.{ConfigArg}
use ucla_cs130_googolplex.Config.Port.{safeport_stoi}
use ucla_cs130_googolplex.Config.Token.Words.{IsWord}
use ucla_cs130_googolplex.Config.Tree.{empty, to_string}
use ucla_cs130_googolplex.Config.Locals.{State, is_minus_one}
use ucla_cs130_googolplex.Config.Parse.{returned}
use ucla_cs130_googolplex.Config.Listing.{
  Site, listing, site_at, addrmap_of, find-addrmap_of, site_at-All, IsSite,
}
use ucla_cs130_googolplex.Config.Listing.Read.{parse-listing}
use ucla_cs130_googolplex.Config.File.{parse_file}
use ucla_cs130_googolplex.TextGen.Api
use ucla_cs130_googolplex.Factory.{Factory, static}
use ucla_cs130_googolplex.Session.Search.{found, search_addr_binding}
use ucla_cs130_googolplex.Session.Search.Longest.{search_addr_binding-longest}
use ucla_cs130_googolplex.Session.Reply.{World, replied, route, max_length}
use ucla_cs130_googolplex.Session.Connection.{Connection, reading}
use ucla_cs130_googolplex.Session.Received.{NoZero, outcome_of}
use ucla_cs130_googolplex.Session.Entries.{IsRouted, entry_of, factory_at}
use ucla_cs130_googolplex.Session.Pages.{page_served}
use ucla_cs130_googolplex.Server.{kind_of}
use ucla_cs130_googolplex.Server.System.{System}
use ucla_cs130_googolplex.Server.System.Service.{answered, session_served}
use ucla_cs130_googolplex.Main.Process.{Signal, Process, running, Move, calls, Reached}
use ucla_cs130_googolplex.Main.Process.Origin.{Reached-IsLawful}

-- No location of the list is longer, where it stands in the url in front of a slash.
abbrev pub IsLongest : Bytes → Bytes → List Site → Type 0
IsLongest location url sites =
    All
      (λ (site : Site).
        (rest : Bytes)
        → url ≡ site.location ++ b'/' ∷ rest
        → length site.location ≤ length location)
      sites

-- The file that the static handler of an entry serves.
abbrev pub page_path : ConfigArg → Bytes → Bytes
page_path arg rest = pop_back_while b'/' (arg.root ++ (codes "/" ++ rest))

IsWord-ne-nil : (s : Bytes) → IsWord s → s ≢ []
IsWord-ne-nil [] h e = absurd h
IsWord-ne-nil (c ∷ s) h e = absurd (ground arith)

find-contains {ℓ} :
    {V : Type ℓ} (l : Bytes) (v : V) (m : Dict V) → find l m ≡ some v → contains l m ≡ true
unfolding contains
find-contains l v m e = rw (contains, e) refl

contains-find {ℓ} :
    {V : Type ℓ} (l : Bytes) (m : Dict V) → contains l m ≡ true → (v : V) × (find l m ≡ some v)
unfolding contains
contains-find l m h = elim (Option-cases (find l m)) [
  | inl e ↦ absurd (ground arith)
  | inr there ↦ there
]

-- The search on routes that were made of a listing.
found_site :
    (sites : List Site) (routes : Dict Factory) (location rest url : Bytes) (arg : ConfigArg)
    → All IsSite sites
    → IsRouted (addrmap_of sites) routes
    → site_at location sites ≡ some arg
    → url ≡ location ++ b'/' ∷ rest
    → IsLongest location url sites
    → search_addr_binding url routes ≡ found location
found_site sites routes location rest url arg plain routed here e longest =
    let entry : find location (addrmap_of sites) ≡ some arg =
      find-addrmap_of location sites ∙ here in
    let (f, there, _) = factory_at (addrmap_of sites) routes location routed arg entry in
    let (site, is_site, at_site, _) = site_at-All IsSite location sites arg here plain in
    search_addr_binding-longest routes url location
      (record {
        bound = find-contains location f routes there;
        ne_nil = subst (λ l. l ≢ []) at_site (IsWord-ne-nil site.location is_site.0);
        splits = (rest, e);
      })
      (λ l' c.
        let (f', there') = contains-find l' routes c.bound in
        let (arg', entry', _) = entry_of (addrmap_of sites) routes l' routed f' there' in
        let listed = sym (find-addrmap_of l' sites) ∙ entry' in
        let (site', no_longer, at', _) =
          site_at-All
            (λ (site : Site).
              (rest : Bytes)
              → url ≡ site.location ++ b'/' ∷ rest
              → length site.location ≤ length location)
            l' sites arg' listed longest in
        let (rest', e') = c.splits in
        subst (λ l. length l ≤ length location) at' (no_longer rest' (rw at' e')))

module _ (files : FileSystem) (file_name port : Bytes) (p : ℕ) (sites : List Site)
    (d : files.Disk) where
  open files use {read}

  -- The parser on the file of a listing.
  parsed_listing :
      read file_name d ≡ some (to_string (listing port sites) 0)
      → IsWord port
      → safeport_stoi port ≡ pos p
      → All IsSite sites
      → (left : State) × (parse_file files file_name empty (negsuc 0) [] d ≡ returned true left)
        × (left.addrmap ≡ addrmap_of sites)
  unfolding parse_file
  parsed_listing text word is_p plain =
      let valid : is_minus_one (safeport_stoi port) ≡ false = rw is_p refl in
      let (left, parsed, (_, at_map)) = parse-listing port word valid sites plain in
      (left, rw (parse_file, text) parsed, at_map)

  module _ {http : Http} (laws : IsHttp http) (service : Api.Service) (bind : ℕ → Option ℕ)
      (concurrency : ℕ) (number : Signal → ℕ) (s : System http files service)
      (before after : List Connection) (c : Connection) (received address location : Bytes)
      (arg : ConfigArg) (request : http.Request) (b : ℕ) (rest content : Bytes) where
    open http use {Response, parse, target, print_response, status_of, body_of, field_of}

    abbrev Moves : Process http files service → Process http files service → Type 0
    Moves = Move http files service bind concurrency number 2 file_name d

    -- The session has sent a reply and reads again.
    abbrev pub replied_to : Response → World http files service → Process http files service
    replied_to r w =
        running
          (record s { sessions = before ++ answered address (print_response r) ∷ after; world = w })

    -- The reply is the page.
    abbrev pub IsFileReply : Response → Type 0
    IsFileReply r =
        (status_of r ≡ ok)
        × (body_of r ≡ content)
        × (field_of content_type r
            ≡ some (get_content_type (files.extension (page_path arg (b ∷ rest)))))

    routed_page :
        (f : Factory) (w : World http files service)
        → search_addr_binding (target request ++ codes "/") w.routes ≡ found location
        → find location w.routes ≡ some f
        → f.kind ≡ static
        → f.arg ≡ arg
        → target request ≡ arg.location ++ (codes "/" ++ b ∷ rest)
        → IsText files (page_path arg (b ∷ rest)) content w.disk
        → (r : Response) × (w' : World http files service) × (route http files service c.client_ip
              request w
            ≡ replied w' r)
          × (w'.disk ≡ w.disk)
          × IsFileReply r
    routed_page f w e there kind same url text =
        let f' : Factory = record f { arg = arg } in
        let there' : find location w.routes ≡ some f' =
          there ∙ ap (λ (a : ConfigArg). some (record f { arg = a })) same in
        let (r, answer, status, body, type) =
          page_served laws files service c.client_ip request w f' location b rest content e there'
            kind url text in
        (r, _, answer, refl, (status, body, type))

    -- Where the configuration file is the print of a list of locations behind a port in range, all
    -- of them unquoted words and no location the word "listen", then in every state of the process
    -- in which the server runs, a session that is reading, and receives fewer than 1024 bytes, none
    -- of them zero, that are a request for a url that goes on behind a location of the list, the
    -- longest that fits, whose handler type is that of the static handler, can be answered in two
    -- moves: behind them it has sent 200 with the file of that path below the root of the location
    -- and its content type, if that file can be read, and it reads again; no other session and
    -- nothing on the disk has changed.
    pub listed_page_served :
        read file_name d ≡ some (to_string (listing port sites) 0)
        → IsWord port
        → safeport_stoi port ≡ pos p
        → All IsSite sites
        → Reached http files service bind concurrency number 2 file_name d (running s)
        → s.sessions ≡ before ++ c ∷ after
        → c.phase ≡ reading
        → NoZero received
        → length received < max_length
        → parse received ≡ some request
        → target request ≡ location ++ (codes "/" ++ b ∷ rest)
        → site_at location sites ≡ some arg
        → IsLongest location (target request ++ codes "/") sites
        → kind_of arg.handler_type ≡ static
        → IsText files (page_path arg (b ∷ rest)) content s.world.disk
        → (r : Response) × (w : World http files service) × (t : System http files service) × Moves
            (running s)
            (running t)
          × Moves (running t) (replied_to r w)
          × (w.disk ≡ s.world.disk)
          × IsFileReply r
    listed_page_served text word is_p plain reached at phase no_zero short is_request url here
          longest kind page =
        let (left, parsed, at_map) = parsed_listing text word is_p plain in
        let v =
          Reached-IsLawful http files service bind concurrency number 2 file_name d s true left
            parsed reached in
        let routed : IsRouted (addrmap_of sites) s.world.routes =
          subst (λ m. IsRouted m s.world.routes) at_map v.routed in
        let entry : find location (addrmap_of sites) ≡ some arg =
          find-addrmap_of location sites ∙ here in
        let (f, there, (is_kind, same)) =
          factory_at (addrmap_of sites) s.world.routes location routed arg entry in
        let (_, _, _, at_arg) = site_at-All IsSite location sites arg here plain in
        let searched =
          found_site sites s.world.routes location ((b ∷ rest) ++ codes "/")
            (target request ++ codes "/") arg plain routed here
            (ap (λ u. u ++ codes "/") url
              ∙ append_assoc location (codes "/" ++ b ∷ rest) (codes "/"))
            longest in
        let (r, w, answer, kept, is_page) =
          routed_page f s.world searched there (is_kind ∙ kind) same (rw at_arg url) page in
        let (t, first, second) =
          session_served left.addrmap d s before after c received address w r v.reach at phase
            no_zero short (rw (outcome_of, is_request) answer) in
        (r, w, t, calls s t refl first refl, calls t _ refl second refl, kept, is_page)
