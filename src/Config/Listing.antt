-- ===== src/Config/Listing.antt =====
-- A configuration as an operator writes it, a port and a list of locations, as a tree of
-- src/config_parser.cc, and what that tree says.
pub mod Says
pub mod Read
use ucla_cs130_googolplex.Prelude.{
  Bytes, codes, equal, if◌then◌else◌, equal_iff, Bool-cases, false, All, sym, arith, inl, inr, List,
  [], ◌∷◌, Option, none, some, ◌≡◌, refl, ap, ◌∙◌,
}
use ucla_cs130_googolplex.Std.Dict.{Dict, find, assign, find-assign}
use ucla_cs130_googolplex.Std.Vector.{nothing, push_back}
use ucla_cs130_googolplex.Config.Arg.{ConfigArg}
use ucla_cs130_googolplex.Config.Token.Words.{IsWord}
use ucla_cs130_googolplex.Config.Tree.{
  NginxConfig, empty, emplace, NginxConfigStatement, statement, null, block,
}

-- What stands in the block of a location: nothing, `root`, `data_path`, or `root` and `api-key`.
pub data SiteBlock : Type 0 where
  bare : SiteBlock
  rooted stored : Bytes → SiteBlock
  keyed : Bytes → Bytes → SiteBlock

-- `location <location> <handler_type> { ... }`
pub record Site : Type 0 where
  pub location : Bytes
  pub handler_type : Bytes
  pub content : SiteBlock

abbrev directive_of : Bytes → Bytes → NginxConfigStatement
directive_of name value = statement (push_back (push_back nothing name) value) null

block_of : SiteBlock → NginxConfig
block_of bare = empty
block_of (rooted root) = emplace empty (directive_of (codes "root") root)
block_of (stored root) = emplace empty (directive_of (codes "data_path") root)
block_of (keyed root key) =
    emplace (emplace empty (directive_of (codes "root") root)) (directive_of (codes "api-key") key)

site_statement : Site → NginxConfigStatement
site_statement site =
    statement
      (push_back (push_back (push_back nothing (codes "location")) site.location) site.handler_type)
      (block (block_of site.content))

-- The sites stand in the file behind the port, the first of the list last.
unfoldable pub listing : Bytes → List Site → NginxConfig
unfolding site_statement block_of
listing port [] = emplace empty (directive_of (codes "listen") port)
listing port (site ∷ sites) = emplace (listing port sites) (site_statement site)

abbrev pub root_of : SiteBlock → Bytes
root_of bare = []
root_of (rooted root) = root
root_of (stored root) = root
root_of (keyed root key) = root

abbrev key_before : Option ConfigArg → Bytes
key_before none = []
key_before (some arg) = arg.api_key

-- A block without a key keeps the key that the location was given before, unless it is empty.
abbrev key_of : SiteBlock → Option ConfigArg → Bytes
key_of bare before = []
key_of (rooted root) before = key_before before
key_of (stored root) before = key_before before
key_of (keyed root key) before = key

-- The entry of a site, where its location had the entry `before`.
abbrev pub arg_of : Site → Option ConfigArg → ConfigArg
arg_of site before = record {
  handler_type = site.handler_type;
  location = site.location;
  root = root_of site.content;
  api_key = key_of site.content before;
}

-- The entry of a location.
unfoldable pub site_at : Bytes → List Site → Option ConfigArg
site_at l [] = none
site_at l (site ∷ sites) =
    let before = site_at l sites in
    if equal site.location l then some (arg_of site before) else before

abbrev pub addrmap_of : List Site → Dict ConfigArg
addrmap_of [] = []
addrmap_of (site ∷ sites) =
    assign site.location (arg_of site (find site.location (addrmap_of sites))) (addrmap_of sites)

pub find-addrmap_of : (l : Bytes) (sites : List Site) → find l (addrmap_of sites) ≡ site_at l sites
unfolding site_at find
find-addrmap_of l [] = refl
find-addrmap_of l (site ∷ sites) =
    find-assign site.location l _ (addrmap_of sites) ∙ (elim (Bool-cases (equal site.location l)) [
      | inl same ↦ rw same (
          ap (λ before. some (arg_of site before))
            (ap (λ k. find k (addrmap_of sites)) ((equal_iff site.location l).0 same)
              ∙ find-addrmap_of l sites))
      | inr other ↦ rw other (find-addrmap_of l sites)
    ])

abbrev AreWords : SiteBlock → Type 0
AreWords bare = Unit
AreWords (rooted root) = IsWord root
AreWords (stored root) = IsWord root
AreWords (keyed root key) = IsWord root × IsWord key

-- A site that is printed without quotes and read back.
abbrev pub IsSite : Site → Type 0
IsSite site =
    IsWord site.location
    × (equal site.location (codes "listen") ≡ false)
    × IsWord site.handler_type
    × AreWords site.content

-- What holds of every site of the list holds of the one that gives a location its entry.
pub site_at-All {ℓ} :
    (P : Site → Type ℓ) (l : Bytes) (sites : List Site) (arg : ConfigArg)
    → site_at l sites ≡ some arg
    → All P sites
    → (site : Site) × P site × (site.location ≡ l) × (arg.location ≡ l)
unfolding site_at
site_at-All P l [] arg e h = absurd (ground arith)
site_at-All P l (site ∷ sites) arg e (p, h) = elim (Bool-cases (equal site.location l)) [
  | inl same ↦
      let here = (equal_iff site.location l).0 same in
      let entry : some (arg_of site (site_at l sites)) ≡ some arg =
        sym (rw (site_at, same) refl) ∙ e in
      (site, p, here, ground arith)
  | inr other ↦
      let before : site_at l sites ≡ some arg = sym (rw (site_at, other) refl) ∙ e in
      site_at-All P l sites arg before h
]
