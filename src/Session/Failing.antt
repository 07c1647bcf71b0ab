-- ===== src/Session/Failing.antt =====
-- What ends the process in a callback of src/session.cc.
use ucla_cs130_googolplex.Prelude.{
  Bytes, codes, ◌++◌, length, ◌<◌, Option-cases, some, subst, ◌≡◌, ◌≢◌, ◌⊎◌, inl, inr, refl, sym,
  ◌∙◌, ap, arith,
}
use ucla_cs130_googolplex.Std.Dict.{find}
use ucla_cs130_googolplex.Http.{Http}
use ucla_cs130_googolplex.Files.{FileSystem}
use ucla_cs130_googolplex.Factory.{Factory, made, create}
use ucla_cs130_googolplex.Crud.Ids.{Table}
use ucla_cs130_googolplex.TextGen.Api.{Service}
use ucla_cs130_googolplex.Session.Search.{found, search_addr_binding}
use ucla_cs130_googolplex.Session.Worlds.{Search-cases}
use ucla_cs130_googolplex.Session.Reply.{
  World, Handled, returned, threw, Outcome, replied, threw_out, exited, undefined_behaviour,
  handle_request, finish, serve, refused, route, empty_response, max_length,
}
use ucla_cs130_googolplex.Session.Risks.{handler_of, MayFail, disk_left, handled-MayFail, created}
use ucla_cs130_googolplex.Session.Connection.{Connection, fails, answer, handle_read, Reachable}
use ucla_cs130_googolplex.Session.Received.{NoZero, outcome_of, handle_read-received}

module _ (http : Http) (files : FileSystem) (service : Service) where
  open http use {Request, Response, target, parse}
  open files use {Disk}

  Handled-cases :
      (o : Handled http files service)
      → ((t : Table) × (d : Disk) × (r : Response) × (o ≡ returned t d r))
        ⊎ ((t : Table) × (d : Disk) × (o ≡ threw t d))
  Handled-cases (returned t d r) = inl (t, d, r, refl)
  Handled-cases (threw t d) = inr (t, d, refl)

  -- No reply is made.
  abbrev pub NoReply : Outcome http files service → Type 0
  NoReply o = (w : World http files service) (r : Response) → o ≢ replied w r

  not_refused :
      (o : Outcome http files service) (w : World http files service)
      → NoReply o
      → o ≢ refused http files service w
  not_refused o w no_reply e = no_reply w _ e

  module _ (client_ip : Bytes) (request : Request) (w : World http files service) where
    serve_made :
        (location : Bytes) (f : Factory)
        → create files f client_ip w.disk ≡ made (handler_of f client_ip, w.disk)
        → serve http files service location f client_ip request w
          ≡ finish http files service location f w (
              handle_request http files service f
                (handler_of f client_ip)
                request
                (empty_response http files service)
                w.disk)
    unfolding serve
    serve_made location f created = rw (serve, created) refl

    serve-MayFail :
        (location : Bytes) (f : Factory)
        → NoReply (serve http files service location f client_ip request w)
        → MayFail http files service f.kind (handler_of f client_ip) request (
            disk_left http files service w.disk
              (serve http files service location f client_ip request w))
    unfolding serve finish
    serve-MayFail location f no_reply =
        elim (created http files service f.kind f client_ip w.disk) [
          | inl by_text_gen ↦ inl by_text_gen
          | inr created ↦
              elim (Handled-cases (
                handle_request http files service f (handler_of f client_ip) request
                  (empty_response http files service) w.disk)) [
                    | inl (t, d, r, e) ↦ absurd (
                        no_reply _ _ (
                          serve_made location f created
                          ∙ ap (finish http files service location f w) e))
                    | inr (t, d, e) ↦
                        rw (serve_made location f created, e)
                          (handled-MayFail http files service f.kind f _ request _ w.disk d t e)
                  ]
        ]

  -- A request for a location of which the handler may fail.
  pub record IsRisky (client_ip text : Bytes) (w : World http files service) (d : Disk)
      : Type 0 where
    pub request : Request
    pub location : Bytes
    pub factory : Factory
    pub parsed : parse text ≡ some request
    pub routed : search_addr_binding (target request ++ codes "/") w.routes ≡ found location
    pub there : find location w.routes ≡ some factory
    pub may_fail : MayFail http files service factory.kind (handler_of factory client_ip) request d

  route-IsRisky :
      (client_ip text : Bytes) (request : Request) (w : World http files service)
      → parse text ≡ some request
      → NoReply (route http files service client_ip request w)
      → IsRisky client_ip text w
          (disk_left http files service w.disk (route http files service client_ip request w))
  unfolding route
  route-IsRisky client_ip text request w parsed no_reply =
      elim (Search-cases (search_addr_binding (target request ++ codes "/") w.routes)) [
        | inl (location, e) ↦ elim (Option-cases (find location w.routes)) [
          | inl absent ↦ absurd (not_refused _ w no_reply (rw (route, e) (rw absent refl)))
          | inr (f, there) ↦
              let same : route http files service client_ip request w
                  ≡ serve http files service location f client_ip request w =
                rw (route, e) (rw there refl) in
              record {
                request = request;
                location = location;
                factory = f;
                parsed = parsed;
                routed = e;
                there = there;
                may_fail = rw same (
                    serve-MayFail client_ip request w location f
                      (λ w' r served. no_reply w' r (same ∙ served)));
              }
        ]
        | inr (inl e) ↦ absurd (not_refused _ w no_reply (rw (route, e) refl))
        | inr (inr e) ↦ absurd (not_refused _ w no_reply (rw (route, e) refl))
      ]

  outcome_of-IsRisky :
      (client_ip text : Bytes) (w : World http files service)
      → NoReply (outcome_of {http = http} {files = files} {service = service} client_ip text w)
      → IsRisky client_ip text w (
          disk_left http files service w.disk
            (outcome_of {http = http} {files = files} {service = service} client_ip text w))
  outcome_of-IsRisky client_ip text w no_reply = elim (Option-cases (parse text)) [
    | inl none_parsed ↦ absurd (not_refused _ w no_reply (rw (outcome_of, none_parsed) refl))
    | inr (request, parsed) ↦
        rw (outcome_of, parsed)
          (route-IsRisky client_ip text request w parsed
            (λ w' r answered. no_reply w' r (rw (outcome_of, parsed) answered)))
  ]

  answer-NoReply :
      (c : Connection) (o o' : Outcome http files service)
      → answer http files service c o ≡ fails o'
      → NoReply o × (o ≡ o')
  unfolding answer
  answer-NoReply c (replied w r) o' e = absurd (ground arith)
  answer-NoReply c (threw_out w) o' e = (λ w' r' same. absurd (ground arith), ground arith)
  answer-NoReply c exited o' e = (λ w' r' same. absurd (ground arith), ground arith)
  answer-NoReply c undefined_behaviour o' e = (λ w' r' same. absurd (ground arith), ground arith)

  -- In every state that a session can reach, where a read of fewer than 1024 bytes, none of them
  -- zero, is not answered, these bytes are a request for a location whose factory is that of the text
  -- generator, or that of the crud handler, and then it is a PUT whose id spells more than the largest
  -- int.
  pub failed_read-IsRisky :
      (c : Connection) (w : World http files service) (received : Bytes)
      (o : Outcome http files service)
      → Reachable http files service c w
      → NoZero received
      → length received < max_length
      → handle_read http files service (some received) c w ≡ fails o
      → IsRisky c.client_ip received w (disk_left http files service w.disk o)
  failed_read-IsRisky c w received o r no_zero short e =
      let (no_reply, same) =
        answer-NoReply c (outcome_of c.client_ip received w) o
          (sym (handle_read-received c w received r no_zero short) ∙ e) in
      subst (λ o. IsRisky c.client_ip received w (disk_left http files service w.disk o)) same
        (outcome_of-IsRisky c.client_ip received w no_reply)
