-- ===== src/Main/Served.antt =====
-- What `main` of src/server_main.cc makes of a configuration file that lists a port and locations.
use ucla_cs130_googolplex.Prelude.{
  ℕ, Bytes, true, false, All, List, [], ◌∷◌, Option, none, some, ◌≡◌, ◌≢◌, ◌⊎◌, refl, subst, ap,
  ◌∙◌, arith,
}
use ucla_cs130_googolplex.Prelude.Int.{pos}
use ucla_cs130_googolplex.Std.Dict.{Dict, find, All-assign}
use ucla_cs130_googolplex.Std.Dict.Order.{InOrder, InOrder-assign, InOrder-DistinctKeys}
use ucla_cs130_googolplex.Files.{FileSystem, IsFolder}
use ucla_cs130_googolplex.Config.Arg.{ConfigArg, valid_handler_types}
use ucla_cs130_googolplex.Config.Port.{safeport_stoi, IsPort, safeport_stoi-IsPort}
use ucla_cs130_googolplex.Config.Token.Words.{IsWord}
use ucla_cs130_googolplex.Config.Tree.{empty, to_string}
use ucla_cs130_googolplex.Config.Parse.{parse, returned}
use ucla_cs130_googolplex.Config.Locals.{State, is_minus_one}
use ucla_cs130_googolplex.Config.Listing.{
  Site, root_of, arg_of, listing, site_at, addrmap_of, find-addrmap_of, IsSite,
}
use ucla_cs130_googolplex.Config.Listing.Read.{parse-listing}
use ucla_cs130_googolplex.Config.File.{parse_file}
use ucla_cs130_googolplex.Factory.{Factory, crud}
use ucla_cs130_googolplex.Server.{kind_of}
use ucla_cs130_googolplex.Server.Routes.{HasRoot, routed, create_dispatcher_returns}
use ucla_cs130_googolplex.Main.{
  is_among, check_types, endpoint_port, listening, new_server, start_with, main,
}
use ucla_cs130_googolplex.Main.Start.{AllValidTypes}

pub AllValidTypes-check_types :
    (addrmap : Dict ConfigArg) → AllValidTypes addrmap → (check_types addrmap).0 ≡ true
unfolding check_types
AllValidTypes-check_types [] h = refl
AllValidTypes-check_types ((l, arg) ∷ addrmap) (p, h) = rw p (AllValidTypes-check_types addrmap h)

-- The handler type of a site is one of those of `config_arg`.
abbrev pub HasValidType : Site → Type 0
HasValidType site = is_among site.handler_type valid_handler_types ≡ true

addrmap_of-AllValidTypes :
    (sites : List Site) → All HasValidType sites → AllValidTypes (addrmap_of sites)
addrmap_of-AllValidTypes [] h = tt
addrmap_of-AllValidTypes (site ∷ sites) (p, h) =
    All-assign (λ e. is_among e.1.handler_type valid_handler_types ≡ true) site.location
      (arg_of site (find site.location (addrmap_of sites))) (addrmap_of sites) p
      (addrmap_of-AllValidTypes sites h)

addrmap_of-InOrder : (sites : List Site) → InOrder (addrmap_of sites)
addrmap_of-InOrder [] = tt
addrmap_of-InOrder (site ∷ sites) =
    InOrder-assign site.location (arg_of site (find site.location (addrmap_of sites)))
      (addrmap_of sites) (addrmap_of-InOrder sites)

endpoint_port-pos : (port : Bytes) (p : ℕ) → safeport_stoi port ≡ pos p → endpoint_port (pos p) ≡ p
unfolding endpoint_port
endpoint_port-pos port p e =
    let h : IsPort (pos p) = subst IsPort e (safeport_stoi-IsPort port) in ground arith

module _ (files : FileSystem) (bind : ℕ → Option ℕ) where
  open files use {Disk, read}

  -- The site is not one of the crud handler, or its folder is there.
  abbrev pub HasFolder : Disk → Site → Type 0
  HasFolder d site = (kind_of site.handler_type ≢ crud) ⊎ IsFolder files (root_of site.content) d

  addrmap_of-HasRoot :
      (d : Disk) (sites : List Site)
      → All (HasFolder d) sites
      → All (λ e. HasRoot files d e.1) (addrmap_of sites)
  addrmap_of-HasRoot d [] h = tt
  addrmap_of-HasRoot d (site ∷ sites) (there, h) =
      All-assign (λ e. HasRoot files d e.1) site.location
        (arg_of site (find site.location (addrmap_of sites))) (addrmap_of sites) there
        (addrmap_of-HasRoot d sites h)

  start_with-served :
      (p q : ℕ) (sites : List Site) (d : Disk)
      → endpoint_port (pos p) ≡ p
      → All HasValidType sites
      → All (HasFolder d) sites
      → bind p ≡ some q
      → (routes : Dict Factory) × (start_with files bind (pos p) (addrmap_of sites) d
          ≡ listening q routes d)
        × ((l : Bytes) → find l routes ≡ routed (site_at l sites) none)
  unfolding start_with new_server
  start_with-served p q sites d same types there free =
      let (routes, created, finds) =
        create_dispatcher_returns files (addrmap_of sites) d
          (InOrder-DistinctKeys (addrmap_of sites) (addrmap_of-InOrder sites))
          (addrmap_of-HasRoot d sites there) in
      let valid =
        AllValidTypes-check_types (addrmap_of sites) (addrmap_of-AllValidTypes sites types) in
      (
        routes,
        rw (valid, new_server, same, free, created) refl,
        λ l. finds l ∙ ap (λ o. routed o none) (find-addrmap_of l sites),
      )

  main-file :
      (file_name text : Bytes) (d : Disk) (s : State)
      → read file_name d ≡ some text
      → parse text empty [] ≡ returned true s
      → main files bind 2 file_name d ≡ start_with files bind s.port s.addrmap d
  unfolding main parse_file
  main-file file_name text d s found parsed = rw (found, parsed) refl

  -- Where the configuration file is the print of a list of locations behind a port in range, each
  -- with a valid handler type and an empty block, a root, a data path, or a root and an api key,
  -- all of them unquoted words and no location the word "listen", and the folder of each location
  -- of the crud handler is there and the acceptor can be opened on that port, main listens where
  -- the acceptor does and leaves the disk alone, and each location of the list has a new factory of
  -- its entry, and no other location has one; of two blocks of one location the later counts, but
  -- that one without an api key, unless it is empty, keeps the key of the earlier.
  pub main_served :
      (file_name port : Bytes) (p q : ℕ) (sites : List Site) (d : Disk)
      → read file_name d ≡ some (to_string (listing port sites) 0)
      → IsWord port
      → safeport_stoi port ≡ pos p
      → All IsSite sites
      → All HasValidType sites
      → All (HasFolder d) sites
      → bind p ≡ some q
      → (routes : Dict Factory) × (main files bind 2 file_name d ≡ listening q routes d)
        × ((l : Bytes) → find l routes ≡ routed (site_at l sites) none)
  main_served file_name port p q sites d found word is_p plain types there free =
      let valid : is_minus_one (safeport_stoi port) ≡ false = rw is_p refl in
      let (s, parsed, (at_port, at_map)) = parse-listing port word valid sites plain in
      let (routes, started, finds) =
        start_with-served p q sites d (endpoint_port-pos port p is_p) types there free in
      (routes, main-file file_name _ d s found parsed ∙ rw (at_port, at_map, is_p) started, finds)
