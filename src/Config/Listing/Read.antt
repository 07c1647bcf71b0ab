-- ===== src/Config/Listing/Read.antt =====
-- `Parse` of src/config_parser.cc on the print of a listing.
use ucla_cs130_googolplex.Prelude.{
  Bytes, codes, equal, false, All, List, [], ◌∷◌, ◌≡◌, inl, inr, refl, sym, subst, true, ap, ◌∙◌,
}
use ucla_cs130_googolplex.Prelude.Int.{negsuc}
use ucla_cs130_googolplex.Config.Port.{safeport_stoi}
use ucla_cs130_googolplex.Config.Token.{ends_token}
use ucla_cs130_googolplex.Config.Token.Words.{IsWord}
use ucla_cs130_googolplex.Config.Token.Quoted.{IsToken}
use ucla_cs130_googolplex.Config.Tree.{NginxConfig, empty, emplace, NginxConfigStatement, to_string}
use ucla_cs130_googolplex.Config.Locals.{State, is_minus_one}
use ucla_cs130_googolplex.Config.Parse.{parse, returned}
use ucla_cs130_googolplex.Config.Parse.RoundTrip.{parse-to_string}
use ucla_cs130_googolplex.Config.Parse.Meaning.{Settings, config_says, IsPlainConfig}
use ucla_cs130_googolplex.Config.Listing.{
  Site, block_of, site_statement, listing, addrmap_of, AreWords, IsSite, SiteBlock, bare, rooted,
  stored, keyed,
}
use ucla_cs130_googolplex.Config.Listing.Says.{listing_says}

listen-IsToken : IsToken (codes "listen")
unfolding ends_token
listen-IsToken = inl ((refl, refl), (refl, (refl, (refl, (refl, (refl, tt))))))

location-IsToken : IsToken (codes "location")
unfolding ends_token
location-IsToken = inl ((refl, refl), (refl, (refl, (refl, (refl, (refl, (refl, (refl, tt))))))))

root-IsToken : IsToken (codes "root")
unfolding ends_token
root-IsToken = inl ((refl, refl), (refl, (refl, (refl, tt))))

data_path-IsToken : IsToken (codes "data_path")
unfolding ends_token
data_path-IsToken =
    inl ((refl, refl), (refl, (refl, (refl, (refl, (refl, (refl, (refl, (refl, tt)))))))))

api_key-IsToken : IsToken (codes "api-key")
unfolding ends_token
api_key-IsToken = inl ((refl, refl), (refl, (refl, (refl, (refl, (refl, (refl, tt)))))))

block_of-IsPlainConfig : (content : SiteBlock) → AreWords content → IsPlainConfig (block_of content)
unfolding IsPlainConfig block_of equal
block_of-IsPlainConfig bare h = tt
block_of-IsPlainConfig (rooted root) h = (tt, ((root-IsToken, inl h, inl refl), tt))
block_of-IsPlainConfig (stored root) h = (tt, ((data_path-IsToken, inl h, inl refl), tt))
block_of-IsPlainConfig (keyed root key) (h, k) =
    ((tt, ((root-IsToken, inl h, inl refl), tt)), ((api_key-IsToken, inl k, inl refl), tt))

listing-IsPlainConfig :
    (port : Bytes) (sites : List Site)
    → IsWord port
    → is_minus_one (safeport_stoi port) ≡ false
    → All IsSite sites
    → IsPlainConfig (listing port sites)
unfolding IsPlainConfig listing site_statement equal
listing-IsPlainConfig port [] word valid h = (tt, ((listen-IsToken, inl word, inr valid), tt))
listing-IsPlainConfig port (site ∷ sites) word valid ((l, other, k, r), h) = (
  listing-IsPlainConfig port sites word valid h,
  (((location-IsToken, inl l, inl refl), inl k, inl other), block_of-IsPlainConfig site.content r),
)

module _ (port : Bytes) (word : IsWord port)
    (valid : is_minus_one (safeport_stoi port) ≡ false) where
  -- What `Parse` leaves of a listing.
  abbrev pub Read : List Site → State → Type 0
  Read sites s = (s.port ≡ safeport_stoi port) × (s.addrmap ≡ addrmap_of sites)

  emplace-Read :
      (c : NginxConfig) (st : NginxConfigStatement) (sites : List Site)
      → emplace c st ≡ listing port sites
      → All IsSite sites
      → (s : State) × (parse (to_string (emplace c st) 0) empty [] ≡ returned true s) × Read sites s
  emplace-Read c st sites e h =
      let says =
        ap (λ c. config_says ([], []) c (record { port = negsuc 0; addrmap = [] })) e
        ∙ listing_says port sites (negsuc 0) h in
      (
        _,
        parse-to_string c st []
            (subst IsPlainConfig (sym e) (listing-IsPlainConfig port sites word valid h)),
        (ap (λ (g : Settings). g.port) says, ap (λ (g : Settings). g.addrmap) says),
      )

  -- A listing is read.
  pub parse-listing :
      (sites : List Site)
      → All IsSite sites
      → (s : State) × (parse (to_string (listing port sites) 0) empty [] ≡ returned true s)
        × Read sites s
  unfolding listing
  parse-listing [] h = emplace-Read _ _ [] refl h
  parse-listing (site ∷ sites) h = emplace-Read _ _ (site ∷ sites) refl h
