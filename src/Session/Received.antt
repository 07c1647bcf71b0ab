-- ===== src/Session/Received.antt =====
-- What a session of src/session.cc makes of the bytes that it received.
use ucla_cs130_googolplex.Prelude.{
  ℕ, zero, suc, ◌<◌, ltb, Bytes, length, All, true, false, [], ◌∷◌, Option, none, some, ◌≡◌, ◌≢◌,
  refl, arith,
}
use ucla_cs130_googolplex.Http.{Http}
use ucla_cs130_googolplex.Files.{FileSystem}
use ucla_cs130_googolplex.TextGen.Api.{Service}
use ucla_cs130_googolplex.Session.Reply.{
  World, Outcome, replied, threw_out, exited, undefined_behaviour, up_to_zero, zeros, max_length,
  refused, route, generate_response,
}
use ucla_cs130_googolplex.Session.Connection.{
  Connection, fill, waits, fails, answer, handle_read, handle_write, Reachable, created, started,
  has_read, has_written, elsewhere,
}

abbrev pub NoZero : Bytes → Type 0
NoZero = All (λ c. c ≢ 0)

up_to_zero-fill :
    (s : Bytes) (n : ℕ) → NoZero s → length s < n → up_to_zero (fill s (zeros n)) ≡ some s
unfolding up_to_zero fill zeros
up_to_zero-fill s zero h lt = absurd (omega arith)
up_to_zero-fill [] (suc n) h lt = refl
up_to_zero-fill (c ∷ s) (suc n) (ne, h) lt = ground (arith, up_to_zero-fill s n h (omega arith))

up_to_zero-full :
    (s : Bytes) (n : ℕ) → NoZero s → length s ≡ n → up_to_zero (fill s (zeros n)) ≡ none
unfolding up_to_zero fill zeros
up_to_zero-full [] zero h e = refl
up_to_zero-full [] (suc n) h e = absurd (omega arith)
up_to_zero-full (c ∷ s) zero h e = absurd (omega arith)
up_to_zero-full (c ∷ s) (suc n) (ne, h) e = ground (arith, up_to_zero-full s n h (omega arith))

module _ {http : Http} {files : FileSystem} {service : Service} where
  open http use {parse}

  -- What the end of `handle_read` leaves in the buffer.
  answer-clean :
      (c c' : Connection) (w' : World http files service) (o : Outcome http files service)
      → answer http files service c o ≡ waits c' w'
      → c'.in_data ≡ zeros max_length
  unfolding answer
  answer-clean c c' w' (replied w r) e = ground arith
  answer-clean c c' w' (threw_out w) e = absurd (ground arith)
  answer-clean c c' w' exited e = absurd (ground arith)
  answer-clean c c' w' undefined_behaviour e = absurd (ground arith)

  read-clean :
      (received : Option Bytes) (c c' : Connection) (w w' : World http files service)
      → c.in_data ≡ zeros max_length
      → handle_read http files service received c w ≡ waits c' w'
      → c'.in_data ≡ zeros max_length
  unfolding handle_read
  read-clean none c c' w w' h e = ground arith
  read-clean (some received) c c' w w' h e = answer-clean c c' w' _ e

  Reachable-clean :
      {c : Connection} {w : World http files service}
      → Reachable http files service c w
      → c.in_data ≡ zeros max_length
  unfolding handle_write
  Reachable-clean (created w) = refl
  Reachable-clean (started c w address r p) = Reachable-clean r
  Reachable-clean (has_read c c' w w' received r p e) =
      read-clean received c c' w w' (Reachable-clean r) e
  Reachable-clean (has_written c w true address r p) = Reachable-clean r
  Reachable-clean (has_written c w false address r p) = Reachable-clean r
  Reachable-clean (elsewhere c w w' r) = Reachable-clean r

  -- What the session makes of a text.
  abbrev pub outcome_of : Bytes → Bytes → World http files service → Outcome http files service
  outcome_of client_ip text w = elim (parse text) [
    | none ↦ refused http files service w
    | some request ↦ route http files service client_ip request w
  ]

  -- In every state that a session can reach, a read of fewer than 1024 bytes, none of them zero, is
  -- answered by what was received in this read alone: the bytes are parsed and routed, and nothing
  -- of an earlier request is left in the buffer.
  pub handle_read-received :
      (c : Connection) (w : World http files service) (received : Bytes)
      → Reachable http files service c w
      → NoZero received
      → length received < max_length
      → handle_read http files service (some received) c w
        ≡ answer http files service c (outcome_of c.client_ip received w)
  unfolding handle_read generate_response
  handle_read-received c w received r h lt =
      let short : ltb max_length (length received) ≡ false = ground arith in
      rw (Reachable-clean r, short, up_to_zero-fill received max_length h lt) refl

  -- In every state that a session can reach, a read that fills the buffer of 1024 bytes, none of
  -- them zero, is undefined behaviour: the buffer is read beyond its end.
  pub handle_read-full :
      (c : Connection) (w : World http files service) (received : Bytes)
      → Reachable http files service c w
      → NoZero received
      → length received ≡ max_length
      → handle_read http files service (some received) c w ≡ fails undefined_behaviour
  unfolding handle_read generate_response answer
  handle_read-full c w received r h full =
      let short : ltb max_length (length received) ≡ false = ground arith in
      rw (Reachable-clean r, short, up_to_zero-full received max_length h full) refl
