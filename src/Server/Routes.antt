-- ===== src/Server/Routes.antt =====
-- The routes that the dispatcher makes of the configuration.
use ucla_cs130_googolplex.Prelude.{
  Bytes, equal, equal_iff, All, false, Bool-cases, Option-cases, [], ◌∷◌, Option, none, some, ◌≡◌,
  ◌≢◌, ◌⊎◌, inl, inr, refl, sym, ◌∙◌, arith,
}
use ucla_cs130_googolplex.Std.Dict.{Dict, find, contains, assign, find-assign}
use ucla_cs130_googolplex.Std.Dict.Order.{DistinctKeys}
use ucla_cs130_googolplex.Files.{FileSystem, IsFolder}
use ucla_cs130_googolplex.Config.Arg.{ConfigArg}
use ucla_cs130_googolplex.Factory.{
  Kind, echo, static, not_found, crud, block, health, text_gen, Factory, new_factory, Made-cases,
  made, stopped, raised, construct, ensure_root,
}
use ucla_cs130_googolplex.Server.{kind_of, dispatch_into, create_dispatcher}

-- The factory that an entry stands for.
abbrev pub factory_of : ConfigArg → Factory
factory_of arg = new_factory (kind_of arg.handler_type) arg

-- The entry of the map where there is one, and what was in the routes otherwise.
abbrev pub routed : Option ConfigArg → Option Factory → Option Factory
routed none before = before
routed (some arg) _ = some (factory_of arg)

module _ (files : FileSystem) where
  open files use {Disk}

  pub construct-cases :
      (kind : Kind) (arg : ConfigArg) (d : Disk)
      → ((construct files kind arg d ≡ stopped) ⊎ (construct files kind arg d ≡ raised))
        ⊎ ((d' : Disk) × (construct files kind arg d ≡ made (new_factory kind arg, d')))
  unfolding construct
  construct-cases crud arg d = elim (Made-cases (ensure_root files arg d)) [
    | inl (inl e) ↦ inl (inl (rw (construct, e) refl))
    | inl (inr e) ↦ inl (inr (rw (construct, e) refl))
    | inr (d', e) ↦ inr (d', rw (construct, e) refl)
  ]
  construct-cases echo arg d = inr (d, refl)
  construct-cases static arg d = inr (d, refl)
  construct-cases not_found arg d = inr (d, refl)
  construct-cases block arg d = inr (d, refl)
  construct-cases health arg d = inr (d, refl)
  construct-cases text_gen arg d = inr (d, refl)

  routed-cons :
      (k l : Bytes) (arg : ConfigArg) (m : Dict ConfigArg) (routes : Dict Factory)
      → contains k m ≡ false
      → routed (find l m) (find l (assign k (factory_of arg) routes))
        ≡ routed (find l ((k, arg) ∷ m)) (find l routes)
  unfolding find contains
  routed-cons k l arg m routes absent = elim (Bool-cases (equal k l)) [
    | inl e ↦ elim (Option-cases (find l m)) [
      | inl e' ↦ rw (e', find-assign, e) refl
      | inr (a, e') ↦ ground (arith, equal_iff k l)
    ]
    | inr e ↦ rw (find-assign, e) refl
  ]

  pub dispatch_into-cons :
      (k : Bytes) (arg : ConfigArg) (m : Dict ConfigArg) (routes : Dict Factory) (d d₁ : Disk)
      → construct files (kind_of arg.handler_type) arg d ≡ made (factory_of arg, d₁)
      → dispatch_into files ((k, arg) ∷ m) routes d
        ≡ dispatch_into files m (assign k (factory_of arg) routes) d₁
  unfolding dispatch_into
  dispatch_into-cons k arg m routes d d₁ constructed = rw (dispatch_into, constructed) refl

  dispatch_into-routed :
      (addrmap : Dict ConfigArg) (routes routes' : Dict Factory) (d d' : Disk) (l : Bytes)
      → DistinctKeys addrmap
      → dispatch_into files addrmap routes d ≡ made (routes', d')
      → find l routes' ≡ routed (find l addrmap) (find l routes)
  unfolding dispatch_into
  dispatch_into-routed [] routes routes' d d' l h e = unfold find in cc
  dispatch_into-routed ((k, arg) ∷ m) routes routes' d d' l (absent, h) e =
      elim (construct-cases (kind_of arg.handler_type) arg d) [
        | inl not_made ↦ absurd (ground arith)
        | inr (d₁, constructed) ↦
            dispatch_into-routed m (assign k (factory_of arg) routes) routes' d₁ d' l h
              (sym (dispatch_into-cons k arg m routes d d₁ constructed) ∙ e)
            ∙ routed-cons k l arg m routes absent
      ]

  -- Where no key stands twice in the map and the dispatcher makes its routes of it, each location
  -- of the map has a new factory of the class of its handler type with its entry, and no other
  -- location has a factory.
  pub create_dispatcher-find :
      (addrmap : Dict ConfigArg) (routes : Dict Factory) (d d' : Disk) (l : Bytes)
      → DistinctKeys addrmap
      → create_dispatcher files addrmap d ≡ made (routes, d')
      → find l routes ≡ routed (find l addrmap) none
  unfolding create_dispatcher
  create_dispatcher-find addrmap routes d d' l h e =
      dispatch_into-routed addrmap [] routes d d' l h e ∙ unfold find in refl

  -- The entry needs no folder, or its folder is there.
  abbrev pub HasRoot : Disk → ConfigArg → Type 0
  HasRoot d arg = (kind_of arg.handler_type ≢ crud) ⊎ IsFolder files arg.root d

  construct_there :
      (kind : Kind) (arg : ConfigArg) (d : Disk)
      → (kind ≢ crud) ⊎ IsFolder files arg.root d
      → construct files kind arg d ≡ made (new_factory kind arg, d)
  unfolding construct ensure_root
  construct_there crud arg d (inl other) = absurd (other refl)
  construct_there crud arg d (inr there) = ground arith
  construct_there echo arg d h = refl
  construct_there static arg d h = refl
  construct_there not_found arg d h = refl
  construct_there block arg d h = refl
  construct_there health arg d h = refl
  construct_there text_gen arg d h = refl

  dispatch_into_returns :
      (addrmap : Dict ConfigArg) (routes : Dict Factory) (d : Disk)
      → All (λ e. HasRoot d e.1) addrmap
      → (routes' : Dict Factory) × (dispatch_into files addrmap routes d ≡ made (routes', d))
  unfolding dispatch_into
  dispatch_into_returns [] routes d h = (routes, refl)
  dispatch_into_returns ((k, arg) ∷ m) routes d (there, h) =
      let (routes', e) = dispatch_into_returns m (assign k (factory_of arg) routes) d h in
      (
        routes',
        dispatch_into-cons k arg m routes d d
              (construct_there (kind_of arg.handler_type) arg d there)
            ∙ e,
      )

  -- Where no key stands twice in the map and the folder of each of its entries for the crud handler
  -- is there, the dispatcher makes its routes, no factory stops the process or throws, and nothing
  -- on the disk changes; the routes hold the factory of each location of the map and no other.
  pub create_dispatcher_returns :
      (addrmap : Dict ConfigArg) (d : Disk)
      → DistinctKeys addrmap
      → All (λ e. HasRoot d e.1) addrmap
      → (routes : Dict Factory) × (create_dispatcher files addrmap d ≡ made (routes, d))
        × ((l : Bytes) → find l routes ≡ routed (find l addrmap) none)
  unfolding create_dispatcher
  create_dispatcher_returns addrmap d h there =
      let (routes, e) = dispatch_into_returns addrmap [] d there in
      (routes, e, λ l. create_dispatcher-find addrmap routes d d l h e)
