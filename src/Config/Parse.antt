-- ===== src/Config/Parse.antt =====
-- `NginxConfigParser::Parse` of src/config_parser.cc, on a stream that is open.
pub mod Rounds
pub mod Fuel
pub mod Entries
pub mod Invariant
pub mod Shape
pub mod Unopened
pub mod Run
pub mod Meaning
pub mod Printed
pub mod RoundTrip
pub mod Reparsed
use ucla_cs130_googolplex.Prelude.{
  ℕ, zero, suc, Bytes, codes, equal, if◌then◌else◌, Bool, true, false, ◌&&◌, ◌||◌, not, List, [],
  ◌∷◌, none, some, length,
}
use ucla_cs130_googolplex.Prelude.Int.{ℤ, pos, negsuc, ◌+ℤ◌}
use ucla_cs130_googolplex.Std.Dict.{Dict}
use ucla_cs130_googolplex.Std.Vector.{Vector, nothing, push_back}
use ucla_cs130_googolplex.Config.Arg.{ConfigArg}
use ucla_cs130_googolplex.Config.Port.{safeport_stoi}
use ucla_cs130_googolplex.Config.Token.{
  TokenType, start, normal, start_block, end_block, comment, statement_end, eof, error, parse_token,
}
use ucla_cs130_googolplex.Config.Tree.{NginxConfig}
use ucla_cs130_googolplex.Config.Stack.{
  emplace_back, back_tokens, push_token, open_block, plug, parent_binding,
}
use ucla_cs130_googolplex.Config.Locals.{
  State, Flow, go, leave, undefined, ◌>>=◌, defined, is_normal, may_precede_normal,
  may_precede_end_block, may_precede_eof, is_start_block, is_zero, is_minus_one, is_empty,
}
use ucla_cs130_googolplex.Config.Bindings.{set_root, set_api_key, bind_empty}

-- A directive in a block, with what it does to the map for a location and a handler type.
bind_location : (Bytes → Bytes → Dict ConfigArg → Dict ConfigArg) → State → Flow State
bind_location update s = do
  (location, config_type) ← defined (parent_binding s.stack)
  if not (is_empty location) && not (is_empty config_type)
      then go (record s { addrmap = update location config_type s.addrmap })
      else go s

listen : Bytes → State → Flow State
listen token s =
    let currport = safeport_stoi token in
    if not (is_minus_one currport) then go (record s { port = currport }) else leave false s

-- What a token does by the token before it in its statement.
unfoldable pub directive : Vector Bytes → Bytes → State → Flow State
unfolding bind_location listen
directive nothing token s = go s
directive (push_back _ lastoken) token s =
    if is_normal s.last_token_type && equal lastoken (codes "listen")
    then listen token s
    else if is_normal s.last_token_type
    then (if equal lastoken (codes "root") || equal lastoken (codes "data_path")
        then bind_location (λ l t. set_root l t token) s
        else if equal lastoken (codes "api-key")
        then bind_location (λ l t. set_api_key l t token) s
        else go s)
    else go s

-- The statement that the token belongs to: a new one, or the one that the token before is in.
unfoldable pub in_statement : State → Flow (List NginxConfig)
in_statement s = if is_normal s.last_token_type then go s.stack else defined (emplace_back s.stack)

unfoldable pub add_token : Bytes → State → Flow State
add_token token s = do
  tokens ← defined (back_tokens s.stack)
  s' ← directive tokens token s
  stack ← defined (push_token token s'.stack)
  go (record s' { stack = stack })

unfoldable pub on_normal : Bytes → State → Flow State
unfolding in_statement add_token
on_normal token s =
    if may_precede_normal s.last_token_type
    then (do stack ← in_statement s; add_token token (record s { stack = stack }))
    else leave false s

unfoldable pub on_start_block : State → Flow State
on_start_block s = do
  stack ← defined (open_block s.stack)
  go (record s { remaining_bracket = s.remaining_bracket +ℤ pos 1; stack = stack })

-- `config_stack.pop()`
pub pop_from : List NginxConfig → State → Flow State
pop_from [] s = undefined
pop_from (top ∷ []) s = go (record s { stack = []; root = some top })
pop_from (top ∷ parent ∷ below) s = go (record s { stack = plug top parent ∷ below })

-- A block that was opened by the token before.
unfoldable pub on_empty_block : State → Flow State
on_empty_block s = do
  tokens ← defined (back_tokens s.stack)
  go (record s { addrmap = bind_empty tokens s.addrmap })

end_of_block : State → Flow State
end_of_block s = if is_start_block s.last_token_type then on_empty_block s else go s

unfoldable pub on_end_block : State → Flow State
unfolding pop_from on_empty_block end_of_block bind_empty
on_end_block s =
    let s' = record s { remaining_bracket = s.remaining_bracket +ℤ negsuc 0 } in
    if may_precede_end_block s.last_token_type
    then (do popped ← pop_from s'.stack s'; end_of_block popped)
    else leave false s'

unfoldable pub on_eof : State → Flow State
on_eof s =
    if not (may_precede_eof s.last_token_type)
    then leave false s
    else if not (is_zero s.remaining_bracket)
    then leave false s
    else leave true s

after : TokenType → State → Flow State
after type s = go (record s { last_token_type = type })

-- One round of the loop.
unfoldable pub round : TokenType → Bytes → State → Flow State
unfolding after
round error token s = leave false s
round comment token s = go s
round start token s = leave false s
round normal token s = on_normal token s >>= after normal
round statement_end token s =
    if is_normal s.last_token_type then after statement_end s else leave false s
round start_block token s = on_start_block s >>= after start_block
round end_block token s = on_end_block s >>= after end_block
round eof token s = on_eof s

pub data Result : Type 0 where
  returned : Bool → State → Result
  undefined_behaviour : Result
  out_of_fuel : Result

pub rounds : ℕ → Bytes → State → Result
rounds zero input s = out_of_fuel
rounds (suc fuel) input s =
    let t = parse_token input in
    elim (round t.type t.value s) [
      | go s' ↦ rounds fuel t.rest s'
      | leave b s' ↦ returned b s'
      | undefined ↦ undefined_behaviour
    ]

abbrev pub initial : NginxConfig → Dict ConfigArg → State
initial config addrmap = record {
  stack = config ∷ [];
  root = none;
  last_token_type = start;
  remaining_bracket = pos 0;
  port = negsuc 0;
  addrmap = addrmap;
}

-- Every round but the last takes a byte, so the fuel is enough.
unfoldable pub parse : Bytes → NginxConfig → Dict ConfigArg → Result
unfolding rounds round on_normal on_start_block on_end_block on_eof directive set_root set_api_key
    ◌>>=◌
parse input config addrmap = rounds (suc (length input)) input (initial config addrmap)
