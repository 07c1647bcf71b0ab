-- ===== src/Session/Tables.antt =====
-- What a request does to the tables of the crud factories, from the bytes of src/session.cc to the handler.
use ucla_cs130_googolplex.Prelude.{Bytes, Bool, All, Option, none, some, ◌≡◌, refl}
use ucla_cs130_googolplex.Std.Dict.{Dict, All-assign, All-find}
use ucla_cs130_googolplex.Http.{Http}
use ucla_cs130_googolplex.Files.{FileSystem}
use ucla_cs130_googolplex.Handler.{Handler}
use ucla_cs130_googolplex.Factory.{Kind, Factory, echo, static, crud, block, health, text_gen}
use ucla_cs130_googolplex.Serve.Static.{handle_static_request}
use ucla_cs130_googolplex.Crud
use ucla_cs130_googolplex.Crud.Ids.{Table}
use ucla_cs130_googolplex.Crud.Ids.Tables.{AllRising}
use ucla_cs130_googolplex.Crud.Invariant
use ucla_cs130_googolplex.TextGen
use ucla_cs130_googolplex.TextGen.Api.{Service}
use ucla_cs130_googolplex.Session.Worlds.{Leaves, IsKept}
use ucla_cs130_googolplex.Session.Reply.{
  World, Handled, returned, threw, of_crud, of_text_gen, of_static, handle_request, finish,
  empty_response,
}

-- The ids of every factory stand in strictly rising order.
abbrev pub RoutesRising : Dict Factory → Type 0
RoutesRising = All (λ e. AllRising e.1.file_to_id)

module _ (http : Http) (files : FileSystem) (service : Service) where
  open http use {Request, Response, target, parse}
  open files use {Disk}

  abbrev table_of : Handled http files service → Table
  table_of (returned t d r) = t
  table_of (threw t d) = t

  table_of-crud :
      (o : Crud.Handled http files)
      → table_of (of_crud http files service o) ≡ Crud.Invariant.table_of http files o
  unfolding of_crud
  table_of-crud (Crud.returned b s r) = refl
  table_of-crud (Crud.threw s) = refl

  table_of-static :
      (t : Table) (d : Disk) (o : Option (Bool × Response))
      → table_of (of_static http files service t d o) ≡ t
  unfolding of_static
  table_of-static t d none = refl
  table_of-static t d (some (b, r)) = refl

  table_of-text_gen :
      (t : Table) (o : TextGen.Handled http files service)
      → table_of (of_text_gen http files service t o) ≡ t
  unfolding of_text_gen
  table_of-text_gen t (TextGen.returned b d r) = refl
  table_of-text_gen t (TextGen.threw d) = refl

  module _ (f : Factory) (h : Handler) (request : Request) (r : Response) (d : Disk)
      (rising : AllRising f.file_to_id) where
    handle-AllRising :
        (k : Kind)
        → AllRising
            (table_of (handle_request http files service (record f { kind = k }) h request r d))
    unfolding handle_request
    handle-AllRising echo = rising
    handle-AllRising static =
        rw (table_of-static f.file_to_id d (handle_static_request http files h request r d)) rising
    handle-AllRising Kind.not_found = rising
    handle-AllRising block = rising
    handle-AllRising health = rising
    handle-AllRising crud =
        let s : Crud.Store http files = record { table = f.file_to_id; disk = d } in
        rw (table_of-crud (Crud.handle_request http files h request r s))
          (Crud.Invariant.handle_request-AllRising http files h request r s rising)
    handle-AllRising text_gen =
        rw
          (table_of-text_gen f.file_to_id
            (TextGen.handle_request http files service h f.arg.api_key request r d))
          rising

  abbrev pub HasRising : World http files service → Type 0
  HasRising w = RoutesRising w.routes

  finish-Leaves :
      (location : Bytes) (f : Factory) (w : World http files service)
      (o : Handled http files service)
      → RoutesRising w.routes
      → AllRising (table_of o)
      → Leaves HasRising (finish http files service location f w o)
  unfolding finish
  finish-Leaves location f w (returned t d r) h k =
      All-assign (λ e. AllRising e.1.file_to_id) location (record f { file_to_id = t }) w.routes k h
  finish-Leaves location f w (threw t d) h k =
      All-assign (λ e. AllRising e.1.file_to_id) location (record f { file_to_id = t }) w.routes k h

  -- No request breaks the order of the ids.
  pub HasRising-IsKept : IsKept HasRising
  HasRising-IsKept location f h request w d rising there = finish-Leaves location f w _ rising (
      handle-AllRising f h request (empty_response http files service) d
        (All-find (λ e. AllRising e.1.file_to_id) location w.routes there rising) f.kind)
