-- ===== src/Session/Risks.antt =====
-- Which handlers may not come back from a request of a session, src/session.cc.
use ucla_cs130_googolplex.Prelude.{
  Bytes, Bool, Option, none, some, subst, ◌≡◌, ◌⊎◌, inl, inr, refl, sym, ◌∙◌, ap, arith,
}
use ucla_cs130_googolplex.Http.{Http}
use ucla_cs130_googolplex.Files.{FileSystem}
use ucla_cs130_googolplex.Handler.{Handler}
use ucla_cs130_googolplex.Factory.{
  Kind, echo, static, crud, block, health, text_gen, Factory, made, create,
}
use ucla_cs130_googolplex.Crud
use ucla_cs130_googolplex.Crud.Ids.{Table}
use ucla_cs130_googolplex.Crud.Throwing
use ucla_cs130_googolplex.Crud.Throwing.{IsThrowing, IsFaulty}
use ucla_cs130_googolplex.Serve.Static.{IsUnsized, handle_static_request, static_threw}
use ucla_cs130_googolplex.TextGen.Api.{Service}
use ucla_cs130_googolplex.Session.Reply.{
  threw, Outcome, replied, threw_out, exited, undefined_behaviour, of_crud, of_static,
  handle_request,
}

-- The handler that a factory makes for a client.
abbrev pub handler_of : Factory → Bytes → Handler
handler_of f client_ip = record { client_ip = client_ip; prefix = f.arg.location; dir = f.arg.root }

module _ (http : Http) (files : FileSystem) (service : Service) where
  open http use {Request, Response, target, parse}
  open files use {Disk}

  -- The classes of which a handler may not come back: the text generator; the crud handler on a PUT of
  -- an id that is too large, and where the file system throws at a path that the request comes to; and
  -- the static handler where the file that the url names has no size that a string can have.
  abbrev pub MayFail : Kind → Handler → Request → Disk → Type 0
  MayFail k h request d =
      (k ≡ text_gen)
      ⊎ (((k ≡ crud) × (IsThrowing http h request ⊎ IsFaulty http files h request d))
          ⊎ ((k ≡ static) × IsUnsized http files h request d))

  -- The disk that is left where the handler throws, and otherwise the one before.
  abbrev pub disk_left : Disk → Outcome http files service → Disk
  disk_left d (replied w r) = d
  disk_left d (threw_out w) = w.disk
  disk_left d exited = d
  disk_left d undefined_behaviour = d

  of_crud_threw :
      (o : Crud.Handled http files) (t : Table) (d : Disk)
      → of_crud http files service o ≡ threw t d
      → (s : Crud.Store http files) × (o ≡ Crud.threw s)
  unfolding of_crud
  of_crud_threw (Crud.returned b s r) t d e = absurd (ground arith)
  of_crud_threw (Crud.threw s) t d e = (s, refl)

  of_crud_disk :
      (s : Crud.Store http files) (t : Table) (d : Disk)
      → of_crud http files service (Crud.threw s) ≡ threw t d
      → s.disk ≡ d
  unfolding of_crud
  of_crud_disk s t d e = ground arith

  of_static_threw :
      (o : Option (Bool × Response)) (t t' : Table) (d d' : Disk)
      → of_static http files service t d o ≡ threw t' d'
      → (o ≡ none) × (d ≡ d')
  unfolding of_static
  of_static_threw none t t' d d' e = (refl, ground arith)
  of_static_threw (some (b, r)) t t' d d' e = absurd (ground arith)

  pub handled-MayFail :
      (k : Kind) (f : Factory) (h : Handler) (request : Request) (r : Response) (d d' : Disk)
      (t : Table)
      → handle_request http files service (record f { kind = k }) h request r d ≡ threw t d'
      → MayFail k h request d'
  unfolding handle_request
  handled-MayFail echo f h request r d d' t e = absurd (ground arith)
  handled-MayFail static f h request r d d' t e =
      let (thrown, same) =
        of_static_threw (handle_static_request http files h request r d) _ t d d' e in
      inr (
        inr (
          refl,
          subst (IsUnsized http files h request) same
              (static_threw http files h request r d thrown),
        ))
  handled-MayFail Kind.not_found f h request r d d' t e = absurd (ground arith)
  handled-MayFail block f h request r d d' t e = absurd (ground arith)
  handled-MayFail health f h request r d d' t e = absurd (ground arith)
  handled-MayFail crud f h request r d d' t e =
      let s : Crud.Store http files = record { table = f.file_to_id; disk = d } in
      let (s', thrown) = of_crud_threw (Crud.handle_request http files h request r s) t d' e in
      let same : s'.disk ≡ d' =
        of_crud_disk s' t d' (ap (of_crud http files service) (sym thrown) ∙ e) in
      inr (
        inl (
          refl,
          elim (Crud.Throwing.handle_request_threw http files h request r s s' thrown) [
            | inl (large, _) ↦ inl large
            | inr faulty ↦ inr (subst (IsFaulty http files h request) same faulty)
          ],
        ))
  handled-MayFail text_gen f h request r d d' t e = inl refl

  pub created :
      (k : Kind) (f : Factory) (client_ip : Bytes) (d : Disk)
      → (k ≡ text_gen)
        ⊎ (create files (record f { kind = k }) client_ip d ≡ made (handler_of f client_ip, d))
  unfolding create
  created echo f client_ip d = inr refl
  created static f client_ip d = inr refl
  created Kind.not_found f client_ip d = inr refl
  created block f client_ip d = inr refl
  created health f client_ip d = inr refl
  created crud f client_ip d = inr refl
  created text_gen f client_ip d = inl refl
