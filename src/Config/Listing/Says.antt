-- ===== src/Config/Listing/Says.antt =====
-- What the listing of a port and locations says, as a tree of src/config_parser.cc.
use ucla_cs130_googolplex.Prelude.{
  Bytes, codes, equal, false, All, List, [], ◌∷◌, Option-cases, ◌≡◌, inl, inr, refl, ap, ◌∙◌,
}
use ucla_cs130_googolplex.Prelude.Int.{ℤ}
use ucla_cs130_googolplex.Std.Dict.{
  Dict, find, assign, insert_absent, find-assign_self, assign-assign,
}
use ucla_cs130_googolplex.Std.Vector.{Vector, nothing, push_back}
use ucla_cs130_googolplex.Config.Arg.{ConfigArg}
use ucla_cs130_googolplex.Config.Port.{safeport_stoi}
use ucla_cs130_googolplex.Config.Token.Words.{IsWord}
use ucla_cs130_googolplex.Config.Tree.{block}
use ucla_cs130_googolplex.Config.Stack.{binding}
use ucla_cs130_googolplex.Config.Bindings.{set_root, set_api_key, set_empty, bind_empty}
use ucla_cs130_googolplex.Config.Parse.Meaning.{
  Settings, pair_says, words_say, config_says, statement_says, child_says,
}
use ucla_cs130_googolplex.Config.Listing.{
  SiteBlock, bare, rooted, stored, keyed, Site, block_of, site_statement, listing, root_of,
  key_before, key_of, arg_of, addrmap_of, IsSite,
}

module _ (l h : Bytes) (m : Dict ConfigArg) where
  -- The entry with a root, and a key.
  abbrev entry : Bytes → Bytes → ConfigArg
  entry root key = record { handler_type = h; location = l; root = root; api_key = key }

  set_root-assign : (r : Bytes) → set_root l h r m ≡ assign l (entry r (key_before (find l m))) m
  unfolding set_root
  set_root-assign r = elim (Option-cases (find l m)) [
    | inl e ↦ rw (set_root, e) (insert_absent l _ m e)
    | inr (arg, e) ↦ rw (set_root, e) refl
  ]

  set_api_key-assign :
      (r k k' : Bytes) → set_api_key l h k' (assign l (entry r k) m) ≡ assign l (entry r k') m
  unfolding set_api_key
  set_api_key-assign r k k' =
      rw (set_api_key, find-assign_self l (entry r k) m)
        (assign-assign l (entry r k') (entry r k) m)

  set_empty-assign : set_empty l h m ≡ assign l (entry [] []) m
  unfolding set_empty
  set_empty-assign = elim (Option-cases (find l m)) [
    | inl e ↦ rw (set_empty, e) (insert_absent l _ m e)
    | inr (arg, e) ↦ rw (set_empty, e) refl
  ]

site_words : Site → Vector Bytes
site_words site =
    push_back (push_back (push_back nothing (codes "location")) site.location) site.handler_type

-- The words of a site say nothing, and are its context.
site_words_say :
    (site : Site) (g : Settings)
    → equal site.location (codes "listen") ≡ false
    → words_say ([], []) (site_words site) g ≡ g
unfolding words_say pair_says site_words equal
site_words_say site g other = rw other refl

-- The kinds of block.
block_says :
    (l h : Bytes) (content : SiteBlock) (p : ℤ) (m : Dict ConfigArg)
    → IsWord l
    → IsWord h
    → child_says
        (push_back (push_back (push_back nothing (codes "location")) l) h)
        (block (block_of content))
        (record { port = p; addrmap = m })
      ≡ record {
        port = p;
        addrmap = assign l (entry l h m (root_of content) (key_of content (find l m))) m;
      }
unfolding config_says words_say pair_says block_of bind_empty binding equal
block_says [] h content p m k k' = absurd k
block_says (c ∷ l) [] content p m k k' = absurd k'
block_says (c ∷ l) (e ∷ h) bare p m k k' =
    ap (λ (m : Dict ConfigArg). record { port = p; addrmap = m })
      (set_empty-assign (c ∷ l) (e ∷ h) m)
block_says (c ∷ l) (e ∷ h) (rooted root) p m k k' =
    ap (λ (m : Dict ConfigArg). record { port = p; addrmap = m })
      (set_root-assign (c ∷ l) (e ∷ h) m root)
block_says (c ∷ l) (e ∷ h) (stored root) p m k k' =
    ap (λ (m : Dict ConfigArg). record { port = p; addrmap = m })
      (set_root-assign (c ∷ l) (e ∷ h) m root)
block_says (c ∷ l) (e ∷ h) (keyed root key) p m k k' =
    ap (λ (m : Dict ConfigArg). record { port = p; addrmap = m })
      (ap (set_api_key (c ∷ l) (e ∷ h) key) (set_root-assign (c ∷ l) (e ∷ h) m root)
        ∙ set_api_key-assign (c ∷ l) (e ∷ h) m root _ key)

site_says :
    (site : Site) (p : ℤ) (m : Dict ConfigArg)
    → IsSite site
    → statement_says ([], []) (site_statement site) (record { port = p; addrmap = m })
      ≡ record { port = p; addrmap = assign site.location (arg_of site (find site.location m)) m }
unfolding config_says site_statement site_words
site_says site p m (l, other, k, r) =
    ap (child_says (site_words site) (block (block_of site.content)))
      (site_words_say site (record { port = p; addrmap = m }) other)
    ∙ block_says site.location site.handler_type site.content p m l k

pub listing_says :
    (port : Bytes) (sites : List Site) (p : ℤ)
    → All IsSite sites
    → config_says ([], []) (listing port sites) (record { port = p; addrmap = [] })
      ≡ record { port = safeport_stoi port; addrmap = addrmap_of sites }
unfolding config_says listing words_say pair_says equal
listing_says port [] p h = refl
listing_says port (site ∷ sites) p (k, h) =
    ap (statement_says ([], []) (site_statement site)) (listing_says port sites p h)
    ∙ site_says site (safeport_stoi port) (addrmap_of sites) k
