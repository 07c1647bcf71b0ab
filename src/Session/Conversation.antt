-- ===== src/Session/Conversation.antt =====
-- A client of src/session.cc that sends one request after another on its connection.
use ucla_cs130_googolplex.Prelude.{
  Bytes, length, ◌<◌, All, false, List, [], ◌∷◌, Option, none, some, ◌≡◌, ◌⊎◌, inl, inr, refl, ap,
  ◌∙◌,
}
use ucla_cs130_googolplex.Http.{Http}
use ucla_cs130_googolplex.Files.{FileSystem}
use ucla_cs130_googolplex.TextGen.Api.{Service}
use ucla_cs130_googolplex.Session.Reply.{
  World, Outcome, replied, threw_out, exited, undefined_behaviour, max_length, zeros,
}
use ucla_cs130_googolplex.Session.Connection.{
  Connection, reading, writing, waits, fails, answer, handle_read, handle_write, Reachable,
  has_read, has_written,
}
use ucla_cs130_googolplex.Session.Received.{NoZero, outcome_of, handle_read-received}

-- A request that the session reads as a whole.
abbrev pub IsShort : Bytes → Type 0
IsShort text = NoZero text × (length text < max_length)

module _ (http : Http) (files : FileSystem) (service : Service) where
  open http use {print_response}

  -- The replies to the requests and the world behind them; `none` where one has no reply.
  abbrev Replies : Type 0
  Replies = Option (List Bytes × World http files service)

  abbrev first : Bytes → Replies → Replies
  first reply none = none
  first reply (some (replies, w)) = some (reply ∷ replies, w)

  -- The callbacks of the session, each read followed by the write of what it left.
  unfoldable pub talk : List Bytes → Connection → World http files service → Replies
  talk [] c w = some ([], w)
  talk (received ∷ requests) c w = elim (handle_read http files service (some received) c w) [
    | waits c' w' ↦
        first c'.rep (talk requests (handle_write http files service false c'.client_ip c') w')
    | fails _ ↦ none
  ]

  -- Each request by itself, with no session.
  unfoldable pub replies_to : Bytes → List Bytes → World http files service → Replies
  replies_to client_ip [] w = some ([], w)
  replies_to client_ip (text ∷ requests) w = elim (outcome_of client_ip text w) [
    | replied w' r ↦ first (print_response r) (replies_to client_ip requests w')
    | threw_out _ ↦ none
    | exited ↦ none
    | undefined_behaviour ↦ none
  ]

-- The session between the read of a request and the write of its reply.
abbrev replying : Connection → Bytes → Connection
replying c reply = record c { rep = reply; in_data = zeros max_length; phase = writing }

module _ {http : Http} {files : FileSystem} {service : Service} where
  open http use {Response, print_response}

  Outcome-cases :
      (o : Outcome http files service)
      → ((w : World http files service) × (r : Response) × (o ≡ replied w r))
        ⊎ (((w : World http files service) × (o ≡ threw_out w))
            ⊎ ((o ≡ exited) ⊎ (o ≡ undefined_behaviour)))
  Outcome-cases (replied w r) = inl (w, r, refl)
  Outcome-cases (threw_out w) = inr (inl (w, refl))
  Outcome-cases exited = inr (inr (inl refl))
  Outcome-cases undefined_behaviour = inr (inr (inr refl))

  -- A session that reads, in any state that it can reach, and is sent requests one after another,
  -- each of fewer than 1024 bytes and none of them zero, writes the same replies, and leaves the
  -- same factories and disk, as when each request is parsed and routed by itself without a session.
  pub talk-replies_to :
      (requests : List Bytes) (c : Connection) (w : World http files service)
      → Reachable http files service c w
      → c.phase ≡ reading
      → All IsShort requests
      → talk http files service requests c w ≡ replies_to http files service c.client_ip requests w
  unfolding talk replies_to answer handle_write
  talk-replies_to [] c w r p h = refl
  talk-replies_to (text ∷ requests) c w r p ((no_zero, short), h) =
      let read = handle_read-received c w text r no_zero short in
      elim (Outcome-cases (outcome_of c.client_ip text w)) [
        | inl (w', reply, e) ↦
            let turn : handle_read http files service (some text) c w
                ≡ waits (replying c (print_response reply)) w' =
              read ∙ ap (answer http files service c) e in
            let there = has_read c (replying c (print_response reply)) w w' (some text) r p turn in
            let back =
              has_written (replying c (print_response reply)) w' false c.client_ip there refl in
            rw (talk, turn, replies_to, e)
              (ap (first http files service (print_response reply))
                (talk-replies_to requests _ w' back refl h))
        | inr (inl (w', e)) ↦ rw (talk, read, replies_to, e) refl
        | inr (inr (inl e)) ↦ rw (talk, read, replies_to, e) refl
        | inr (inr (inr e)) ↦ rw (talk, read, replies_to, e) refl
      ]
