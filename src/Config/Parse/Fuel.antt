-- ===== src/Config/Parse/Fuel.antt =====
-- How many rounds the loop of `Parse` in src/config_parser.cc takes.
use ucla_cs130_googolplex.Prelude.{ℕ, zero, suc, ◌<◌, Bytes, length, ◌≡◌, ◌≢◌, inl, inr, arith}
use ucla_cs130_googolplex.Std.Dict.{Dict}
use ucla_cs130_googolplex.Config.Arg.{ConfigArg}
use ucla_cs130_googolplex.Config.Token.{TokenType, eof, parse_token}
use ucla_cs130_googolplex.Config.Token.Progress.{parse_token-lt}
use ucla_cs130_googolplex.Config.Tree.{NginxConfig}
use ucla_cs130_googolplex.Config.Locals.{State, go}
use ucla_cs130_googolplex.Config.Parse.{on_eof, round, out_of_fuel, rounds, initial, parse}
use ucla_cs130_googolplex.Config.Parse.Rounds.{
  Flow-cases, next_round, rounds_go, rounds_leave, rounds_undefined,
}

on_eof_leaves : (s s' : State) → on_eof s ≢ go s'
unfolding on_eof
on_eof_leaves s s' = ground arith

pub round_goes_on :
    (type : TokenType) (token : Bytes) (s s' : State) → round type token s ≡ go s' → type ≢ eof
unfolding round
round_goes_on eof token s s' h e = on_eof_leaves s s' h
round_goes_on _ token s s' h e = cc

rounds-ne-out_of_fuel :
    (fuel : ℕ) (input : Bytes) (s : State) → length input < fuel → rounds fuel input s ≢ out_of_fuel
rounds-ne-out_of_fuel zero input s h = elim h [ ]
rounds-ne-out_of_fuel (suc fuel) input s h = elim (Flow-cases (next_round input s)) [
  | inl (s', e) ↦
      let taken = parse_token-lt input (round_goes_on _ _ s s' e) in
      rw (rounds_go fuel input s s' e)
        (rounds-ne-out_of_fuel fuel (parse_token input).rest s' (omega arith))
  | inr (inl (b, s', e)) ↦ rw (rounds_leave fuel input s b s' e) (λ p. cc)
  | inr (inr e) ↦ rw (rounds_undefined fuel input s e) (λ p. cc)
]

-- On every input Parse returns or its behaviour is undefined: it does not loop for ever.
pub parse-ne-out_of_fuel :
    (input : Bytes) (config : NginxConfig) (addrmap : Dict ConfigArg)
    → parse input config addrmap ≢ out_of_fuel
unfolding parse
parse-ne-out_of_fuel input config addrmap =
    rounds-ne-out_of_fuel (suc (length input)) input (initial config addrmap) (omega arith)
