-- ===== src/Session/Entries.antt =====
-- The factories that the sessions of src/session.cc share keep their class and their entry.
use ucla_cs130_googolplex.Prelude.{
  Bytes, equal, equal_iff, Bool-cases, Option-cases, arith, [], Option, none, some, ◌≡◌, inl, inr,
  ap, ◌∙◌, sym,
}
use ucla_cs130_googolplex.Std.Dict.{Dict, find, assign, find-assign}
use ucla_cs130_googolplex.Http.{Http}
use ucla_cs130_googolplex.Files.{FileSystem}
use ucla_cs130_googolplex.Config.Arg.{ConfigArg}
use ucla_cs130_googolplex.Factory.{Factory}
use ucla_cs130_googolplex.Crud.Ids.{Table}
use ucla_cs130_googolplex.TextGen.Api.{Service}
use ucla_cs130_googolplex.Server.{kind_of}
use ucla_cs130_googolplex.Server.Routes.{routed, factory_of}
use ucla_cs130_googolplex.Session.Worlds.{Leaves, IsKept}
use ucla_cs130_googolplex.Session.Reply.{World, Handled, returned, threw, finish}

-- A factory without what it learnt.
abbrev pub as_new : Option Factory → Option Factory
as_new none = none
as_new (some f) = some (record f { file_to_id = [] })

-- Every location has the factory of its entry, as far as its class and its entry go.
abbrev pub IsRouted : Dict ConfigArg → Dict Factory → Type 0
IsRouted addrmap routes = (l : Bytes) → as_new (find l routes) ≡ routed (find l addrmap) none

-- A factory that changes its table.
assign-IsRouted :
    (addrmap : Dict ConfigArg) (routes : Dict Factory) (location : Bytes) (f : Factory) (t : Table)
    → find location routes ≡ some f
    → IsRouted addrmap routes
    → IsRouted addrmap (assign location (record f { file_to_id = t }) routes)
assign-IsRouted addrmap routes location f t there h l =
    ap as_new (find-assign location l (record f { file_to_id = t }) routes)
    ∙ (elim (Bool-cases (equal location l)) [
      | inl same ↦
          let here : find l routes ≡ some f =
            ap (λ k. find k routes) (sym ((equal_iff location l).0 same)) ∙ there in
          rw same (sym (ap as_new here) ∙ h l)
      | inr other ↦ rw other (h l)
    ])

-- The factory of a location and its entry.
abbrev pub IsOf : Factory → ConfigArg → Type 0
IsOf f arg = (f.kind ≡ kind_of arg.handler_type) × (f.arg ≡ arg)

module _ (addrmap : Dict ConfigArg) (routes : Dict Factory) (l : Bytes)
    (h : IsRouted addrmap routes) where
  -- A factory has its entry in the map.
  pub entry_of :
      (f : Factory)
      → find l routes ≡ some f
      → (arg : ConfigArg) × (find l addrmap ≡ some arg) × IsOf f arg
  entry_of f there = elim (Option-cases (find l addrmap)) [
    | inl absent ↦
        let none_there : some (record f { file_to_id = [] }) ≡ none =
          sym (ap as_new there) ∙ (h l ∙ ap (λ o. routed o none) absent) in
        absurd (ground arith)
    | inr (arg, entry) ↦
        let same : some (record f { file_to_id = [] }) ≡ some (factory_of arg) =
          sym (ap as_new there) ∙ (h l ∙ ap (λ o. routed o none) entry) in
        (arg, entry, (ground arith, ground arith))
  ]

  -- An entry has a factory.
  pub factory_at :
      (arg : ConfigArg)
      → find l addrmap ≡ some arg
      → (f : Factory) × (find l routes ≡ some f) × IsOf f arg
  factory_at arg entry = elim (Option-cases (find l routes)) [
    | inl absent ↦
        let none_there : none ≡ some (factory_of arg) =
          sym (ap as_new absent) ∙ (h l ∙ ap (λ o. routed o none) entry) in
        absurd (ground arith)
    | inr (f, there) ↦
        let same : some (record f { file_to_id = [] }) ≡ some (factory_of arg) =
          sym (ap as_new there) ∙ (h l ∙ ap (λ o. routed o none) entry) in
        (f, there, (ground arith, ground arith))
  ]

module _ (http : Http) (files : FileSystem) (service : Service) (addrmap : Dict ConfigArg) where
  abbrev pub HasRoutes : World http files service → Type 0
  HasRoutes w = IsRouted addrmap w.routes

  finish-Leaves :
      (location : Bytes) (f : Factory) (w : World http files service)
      (o : Handled http files service)
      → find location w.routes ≡ some f
      → HasRoutes w
      → Leaves HasRoutes (finish http files service location f w o)
  unfolding finish
  finish-Leaves location f w (returned t d r) there h =
      assign-IsRouted addrmap w.routes location f t there h
  finish-Leaves location f w (threw t d) there h =
      assign-IsRouted addrmap w.routes location f t there h

  pub HasRoutes-IsKept : IsKept HasRoutes
  HasRoutes-IsKept location f h request w d routed there = finish-Leaves location f w _ there routed
