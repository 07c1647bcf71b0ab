-- ===== src/Server/System/Service.antt =====
-- A request to the server of src/server.cc, from its read to the end of its reply.
use ucla_cs130_googolplex.Prelude.{
  Bytes, length, false, All, All-middle, List, ◌∷◌, ◌++◌, ◌<◌, some, ◌≡◌, refl, subst, ◌∙◌, ap,
}
use ucla_cs130_googolplex.Std.Dict.{Dict}
use ucla_cs130_googolplex.Http.{Http}
use ucla_cs130_googolplex.Files.{FileSystem}
use ucla_cs130_googolplex.Config.Arg.{ConfigArg}
use ucla_cs130_googolplex.TextGen.Api
use ucla_cs130_googolplex.Session.Reply.{World, replied, zeros, max_length}
use ucla_cs130_googolplex.Session.Connection.{
  Connection, reading, writing, waits, answer, handle_read, handle_write, Reachable,
}
use ucla_cs130_googolplex.Session.Received.{NoZero, outcome_of, handle_read-received}
use ucla_cs130_googolplex.Server.System.{System, Step, reads, writes, Reach}
use ucla_cs130_googolplex.Server.System.Runs.{IsSound, Reach-IsSound}

-- The session after it was answered and its peer has read the answer.
abbrev pub answered : Bytes → Bytes → Connection
answered address reply = record {
  client_ip = address;
  in_data = zeros max_length;
  rep = reply;
  phase = reading;
}

module _ {http : Http} {files : FileSystem} {service : Api.Service} where
  open http use {Response, print_response}

  module _ (addrmap : Dict ConfigArg) (d : files.Disk) (s : System http files service)
      (before after : List Connection) (c : Connection) (received address : Bytes)
      (w : World http files service) (r : Response) where
    -- In every state that the server reaches, a session that is reading, and receives fewer than
    -- 1024 bytes, none of them zero, to which the routing has a reply, can take two steps, a read
    -- and a write: behind them it has sent that reply and reads again with an empty buffer, and no
    -- other session has changed.
    pub session_served :
        Reach http files service addrmap d s
        → s.sessions ≡ before ++ c ∷ after
        → c.phase ≡ reading
        → NoZero received
        → length received < max_length
        → outcome_of c.client_ip received s.world ≡ replied w r
        → (t : System http files service) × Step http files service s t
          × Step http files service t (record s {
            sessions = before ++ answered address (print_response r) ∷ after;
            world = w;
          })
    unfolding answer handle_write
    session_served reach at phase no_zero short reply =
        let v : IsSound s = Reach-IsSound addrmap d reach in
        let alive : All (λ c. Reachable http files service c s.world) (before ++ c ∷ after) =
          subst (All (λ c. Reachable http files service c s.world)) at v.sessions in
        let c' : Connection = record c {
          rep = print_response r;
          in_data = zeros max_length;
          phase = writing;
        } in
        let turn : handle_read http files service (some received) c s.world ≡ waits c' w =
          handle_read-received c s.world received
            (All-middle (λ c. Reachable http files service c s.world) before after c alive).1.0
            no_zero short
          ∙ ap (answer http files service c) reply in
        (
          record s { sessions = before ++ c' ∷ after; world = w },
          reads before after c c' (some received) w at phase turn refl,
          writes before after c' false address refl refl refl,
        )
