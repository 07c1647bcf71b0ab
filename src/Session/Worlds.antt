-- ===== src/Session/Worlds.antt =====
-- What an outcome of src/session.cc leaves behind of the things that the sessions share.
use ucla_cs130_googolplex.Prelude.{
  ℕ, Bytes, codes, ◌++◌, length, ltb, Bool-cases, Option-cases, Option, none, some, ◌≡◌, ◌⊎◌, inl,
  inr, refl, arith, subst,
}
use ucla_cs130_googolplex.Std.Dict.{find}
use ucla_cs130_googolplex.Http.{Http}
use ucla_cs130_googolplex.Files.{FileSystem}
use ucla_cs130_googolplex.Handler.{Handler}
use ucla_cs130_googolplex.Factory.{Factory, Made-cases, create}
use ucla_cs130_googolplex.TextGen.Api.{Service}
use ucla_cs130_googolplex.Session.Search.{
  Search, found, not_found, out_of_fuel, search_addr_binding,
}
use ucla_cs130_googolplex.Session.Reply.{
  World, Outcome, replied, threw_out, exited, undefined_behaviour, handle_request, finish, serve,
  route, generate_response, up_to_zero, max_length, empty_response,
}
use ucla_cs130_googolplex.Session.Connection.{Connection, waits, fill, answer, handle_read}

pub Search-cases :
    (s : Search) → ((l : Bytes) × (s ≡ found l)) ⊎ ((s ≡ not_found) ⊎ (s ≡ out_of_fuel))
Search-cases (found l) = inl (l, refl)
Search-cases not_found = inr (inl refl)
Search-cases out_of_fuel = inr (inr refl)

module _ {http : Http} {files : FileSystem} {service : Service} where
  open http use {Request, target, parse}

  -- The world that is left, where there is one, has a property.
  abbrev pub Leaves : (World http files service → Type 0) → Outcome http files service → Type 0
  Leaves P (replied w r) = P w
  Leaves P (threw_out w) = P w
  Leaves P exited = Unit
  Leaves P undefined_behaviour = Unit

  -- Every factory that is there keeps a property, whatever its handler makes of a request.
  abbrev pub IsKept : (World http files service → Type 0) → Type 0
  IsKept P =
      (location : Bytes) (f : Factory) (h : Handler) (request : Request)
      (w : World http files service) (d : files.Disk)
      → P w
      → find location w.routes ≡ some f
      → Leaves P (
          finish http files service location f w
            (handle_request http files service f h request (empty_response http files service) d))

  module _ (P : World http files service → Type 0) (kept : IsKept P) where
    module _ (client_ip : Bytes) (request : Request) (w : World http files service) (h : P w) where
      serve-Leaves :
          (location : Bytes) (f : Factory)
          → find location w.routes ≡ some f
          → Leaves P (serve http files service location f client_ip request w)
      unfolding serve
      serve-Leaves location f there = elim (Made-cases (create files f client_ip w.disk)) [
        | inl (inl no_root) ↦ rw (serve, no_root) tt
        | inl (inr thrown) ↦ rw (serve, thrown) h
        | inr ((handler, d), made) ↦ rw (serve, made) (kept location f handler request w d h there)
      ]

      route-Leaves : Leaves P (route http files service client_ip request w)
      unfolding route
      route-Leaves =
          elim (Search-cases (search_addr_binding (target request ++ codes "/") w.routes)) [
            | inl (location, e) ↦ elim (Option-cases (find location w.routes)) [
              | inl absent ↦ rw (route, e) (rw absent h)
              | inr (f, there) ↦ rw (route, e) (rw there (serve-Leaves location f there))
            ]
            | inr (inl e) ↦ rw (route, e) h
            | inr (inr e) ↦ rw (route, e) h
          ]

    pub generate_response-Leaves :
        (client_ip received : Bytes) (n : ℕ) (w : World http files service)
        → P w
        → Leaves P (generate_response http files service client_ip received n w)
    unfolding generate_response
    generate_response-Leaves client_ip received n w h = elim (Bool-cases (ltb max_length n)) [
      | inl long ↦ rw long h
      | inr short ↦ elim (Option-cases (up_to_zero received)) [
        | inl open_ended ↦ rw (short, open_ended) tt
        | inr (text, ended) ↦ elim (Option-cases (parse text)) [
          | inl e ↦ rw (short, ended, e) h
          | inr (request, e) ↦ rw (short, ended, e) (route-Leaves client_ip request w h)
        ]
      ]
    ]

    answer-Leaves :
        (c c' : Connection) (w' : World http files service) (o : Outcome http files service)
        → Leaves P o
        → answer http files service c o ≡ waits c' w'
        → P w'
    unfolding answer
    answer-Leaves c c' w' (replied w r) h e = let e' : w ≡ w' = ground arith in subst P e' h
    answer-Leaves c c' w' (threw_out w) h e = absurd (ground arith)
    answer-Leaves c c' w' exited h e = absurd (ground arith)
    answer-Leaves c c' w' undefined_behaviour h e = absurd (ground arith)

    pub handle_read-Leaves :
        (received : Option Bytes) (c c' : Connection) (w w' : World http files service)
        → P w
        → handle_read http files service received c w ≡ waits c' w'
        → P w'
    unfolding handle_read
    handle_read-Leaves none c c' w w' h e = let e' : w ≡ w' = ground arith in subst P e' h
    handle_read-Leaves (some received) c c' w w' h e =
        answer-Leaves c c' w' _
          (generate_response-Leaves c.client_ip (fill received c.in_data) (length received) w h) e
