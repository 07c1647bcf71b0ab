-- ===== src/Session/Connection.antt =====
-- `session` of src/session.cc and include/session.h as a state machine: `start`, `handle_read`,
-- `handle_write`, `read` and `recycle`, between the calls of Boost.Asio.
use ucla_cs130_googolplex.Prelude.{
  Bytes, length, Bool, true, false, [], ◌∷◌, Option, none, some, ◌≡◌,
}
use ucla_cs130_googolplex.Http.{Http}
use ucla_cs130_googolplex.Files.{FileSystem}
use ucla_cs130_googolplex.TextGen.Api.{Service}
use ucla_cs130_googolplex.Session.Reply.{
  World, Outcome, replied, threw_out, exited, undefined_behaviour, generate_response, max_length,
  zeros,
}

-- What the session waits for: nothing yet, an `async_read_some`, an `async_write`; or it was deleted.
pub data Phase : Type 0 where
  accepting reading writing deleted : Phase

pub record Connection : Type 0 where
  pub client_ip : Bytes
  pub in_data : Bytes
  pub rep : Bytes
  pub phase : Phase

-- The constructor.
abbrev pub new_session : Connection
new_session = record { client_ip = []; in_data = zeros max_length; rep = []; phase = accepting }

-- `async_read_some` puts what it received at the front of the buffer.
unfoldable pub fill : Bytes → Bytes → Bytes
fill [] buffer = buffer
fill (c ∷ s) [] = []
fill (c ∷ s) (_ ∷ buffer) = c ∷ fill s buffer

-- `start`, with the address of the peer.
abbrev pub start : Bytes → Connection → Connection
start address c = record c { client_ip = address; phase = reading }

abbrev pub recycle : Connection → Connection
recycle c = record c { phase = deleted }

module _ (http : Http) (files : FileSystem) (service : Service) where
  open http use {print_response}

  -- A callback ends with the session waiting, or the process does not get so far.
  pub data Turn : Type 0 where
    waits : Connection → World http files service → Turn
    fails : Outcome http files service → Turn

  -- The end of `handle_read`.
  unfoldable pub answer : Connection → Outcome http files service → Turn
  answer c (replied w r) =
      waits (record c { rep = print_response r; in_data = zeros max_length; phase = writing }) w
  answer c (threw_out w) = fails (threw_out w)
  answer c exited = fails exited
  answer c undefined_behaviour = fails undefined_behaviour

  -- `handle_read`, with what was received; `none` is an error.
  unfoldable pub handle_read : Option Bytes → Connection → World http files service → Turn
  unfolding generate_response fill answer
  handle_read none c w = waits (recycle c) w
  handle_read (some received) c w = answer c (
      generate_response http files service c.client_ip (fill received c.in_data) (length received)
        w)

  -- `handle_write`, with whether there was an error.
  unfoldable pub handle_write : Bool → Bytes → Connection → Connection
  handle_write true address c = recycle c
  handle_write false address c = start address c

  -- The callbacks in the order in which Boost.Asio calls them.
  pub data Reachable : Connection → World http files service → Type 0 where
    created : (w : World http files service) → Reachable new_session w
    started :
        (c : Connection) (w : World http files service) (address : Bytes)
        → Reachable c w
        → c.phase ≡ accepting
        → Reachable (start address c) w
    has_read :
        (c c' : Connection) (w w' : World http files service) (received : Option Bytes)
        → Reachable c w
        → c.phase ≡ reading
        → handle_read received c w ≡ waits c' w'
        → Reachable c' w'
    has_written :
        (c : Connection) (w : World http files service) (error : Bool) (address : Bytes)
        → Reachable c w
        → c.phase ≡ writing
        → Reachable (handle_write error address c) w
    -- Other sessions and other threads change what is shared.
    elsewhere : (c : Connection) (w w' : World http files service) → Reachable c w → Reachable c w'
