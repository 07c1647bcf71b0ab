-- ===== src/Tests/ConfigFile.antt =====
-- The reader of the configuration at concrete texts.
use ucla_cs130_googolplex.Prelude.{
  Bytes, false, equal, inl, true, ◌∷◌, inr, codes, [], ◌≡◌, ◌≢◌, refl, arith,
}
use ucla_cs130_googolplex.Prelude.Int.{pos, negsuc}
use ucla_cs130_googolplex.Std.Number.{stoi}
use ucla_cs130_googolplex.Std.Number
use ucla_cs130_googolplex.Std.Vector.{nothing, push_back}
use ucla_cs130_googolplex.Config.Port.{
  safeport_stoi, IsPort, safeport_stoi-IsPort, safeport_stoi-to_string,
}
use ucla_cs130_googolplex.Config.Token.{
  TokenType, normal, statement_end, end_block, eof, ends_token, parse_token,
}
use ucla_cs130_googolplex.Config.Token.Words.{parse_token_lost_word}
use ucla_cs130_googolplex.Config.Token.Quoted.{IsToken, parse_token-IsToken}
use ucla_cs130_googolplex.Config.Token.Sound.{IsSoundToken, parse_token-IsSoundToken}
use ucla_cs130_googolplex.Config.Tree.{
  NginxConfig, empty, emplace, NginxConfigStatement, statement, null, block, to_string,
}
use ucla_cs130_googolplex.Config.Parse.{parse, returned, out_of_fuel, undefined_behaviour}
use ucla_cs130_googolplex.Config.Locals.{State}
use ucla_cs130_googolplex.Config.Parse.Reparsed.{IsTreeOf, accepted_reads_back}
use ucla_cs130_googolplex.Config.Stack.{emplace_back, back_tokens, push_token, open_block, plug}
use ucla_cs130_googolplex.Config.Parse.Unopened.{parse_start_block}
use ucla_cs130_googolplex.Config.Parse.Fuel.{parse-ne-out_of_fuel}
use ucla_cs130_googolplex.Config.Parse.Meaning.{config_says, IsPlainConfig}
use ucla_cs130_googolplex.Config.Parse.Printed.{reading, statement_type}
use ucla_cs130_googolplex.Config.Parse.RoundTrip.{parse-to_string}
use ucla_cs130_googolplex.Config.Parse.Rounds.{Ends}
use ucla_cs130_googolplex.Config.Parse.Invariant.{Returns, parse-Returns}

parse-Returns_example :
    Ends Returns (parse (codes "listen 80; location \"/\" EchoHandler { }") empty [])
parse-Returns_example =
    parse-Returns (codes "listen 80; location \"/\" EchoHandler { }") empty [] (tt, tt)

parse-ne-out_of_fuel_example : parse (codes "} {") empty [] ≢ out_of_fuel
parse-ne-out_of_fuel_example = parse-ne-out_of_fuel (codes "} {") empty []

quoted-IsToken : IsToken (codes "'a b'")
quoted-IsToken = inr (
    inr (record {
      inner = codes "a b";
      plain = ((refl, refl), ((refl, refl), ((refl, refl), tt)));
      text = refl;
    }))

parse_token-IsToken_example :
    parse_token (codes "  'a b';")
    ≡ record { type = TokenType.normal; value = codes "'a b'"; rest = codes ";" }
unfolding ends_token
parse_token-IsToken_example =
    parse_token-IsToken (codes "  ") (codes "'a b'") [] b';' (refl, (refl, tt)) quoted-IsToken refl

parse_token-IsSoundToken_example : IsSoundToken (parse_token (codes " \"a b\" {"))
parse_token-IsSoundToken_example = parse_token-IsSoundToken (codes " \"a b\" {") (ground arith)

parse_token_lost_word_example : (parse_token (codes " end")).type ≡ eof
unfolding ends_token
parse_token_lost_word_example =
    parse_token_lost_word (codes " ") (codes "end") (refl, tt) ((refl, refl), (refl, (refl, tt)))

safeport_stoi-IsPort_example : IsPort (safeport_stoi (codes "80x"))
safeport_stoi-IsPort_example = safeport_stoi-IsPort (codes "80x")

safeport_stoi-to_string_example : safeport_stoi (Number.to_string 65536) ≡ negsuc 0
safeport_stoi-to_string_example = safeport_stoi-to_string 65536 (omega arith)

parse_start_block_example : parse (codes " { }") empty [] ≡ undefined_behaviour
parse_start_block_example = parse_start_block (codes " ") (codes " }") [] (refl, tt)

-- `server "a b" { listen 80; }`
abbrev nested : NginxConfigStatement
nested = statement (push_back (push_back nothing (codes "server")) (codes "\"a b\"")) (
    block (
      emplace empty (statement (push_back (push_back nothing (codes "listen")) (codes "80")) null)))

nested-IsPlainConfig : IsPlainConfig (emplace empty nested)
unfolding IsPlainConfig ends_token safeport_stoi stoi equal
nested-IsPlainConfig = (
  tt,
  (
    (
      inl ((refl, refl), (refl, (refl, (refl, (refl, (refl, tt)))))),
      inr (
          inl (record {
            inner = codes "a b";
            plain = ((refl, refl), ((refl, refl), ((refl, refl), tt)));
            text = refl;
          })),
      inl refl,
    ),
    (
      tt,
      (
        (
          inl ((refl, refl), (refl, (refl, (refl, (refl, (refl, tt)))))),
          inl ((refl, refl), (refl, tt)),
          inr refl,
        ),
        tt,
      ),
    ),
  ),
)

parse-to_string_example :
    parse (to_string (emplace empty nested) 0) empty []
    ≡ returned true (
        reading
          (emplace empty nested ∷ [])
          (statement_type nested)
          0
          (config_says ([], []) (emplace empty nested) (record { port = negsuc 0; addrmap = [] })))
parse-to_string_example = parse-to_string empty nested [] nested-IsPlainConfig

-- A quote behind a backslash loses the backslash, and the print is not accepted again.
abbrev escaped_quote : NginxConfig
escaped_quote =
    emplace empty (statement (push_back (push_back nothing (codes "a")) (codes "'b'c'")) null)

escaped_quote_parsed :
    parse (codes "a 'b\\'c';") empty []
    ≡ returned true
        (reading (escaped_quote ∷ []) statement_end 0 (record { port = negsuc 0; addrmap = [] }))
unfolding parse parse_token emplace_back back_tokens push_token equal
escaped_quote_parsed = refl

escaped_quote_printed :
    parse (to_string escaped_quote 0) empty []
    ≡ returned false (
        reading
          (emplace empty (statement (push_back nothing (codes "a")) null) ∷ [])
          normal
          0
          (record { port = negsuc 0; addrmap = [] }))
unfolding parse to_string parse_token emplace_back back_tokens push_token equal
escaped_quote_printed = refl

-- The same tree, written in another way.
abbrev compact : Bytes
compact = codes "server  \"a b\"{listen 80;} # end\n"

abbrev compact_read : State
compact_read =
    reading (emplace empty nested ∷ []) end_block 0 (record { port = pos 80; addrmap = [] })

compact_parsed : parse compact empty [] ≡ returned true compact_read
unfolding parse parse_token emplace_back back_tokens push_token equal open_block safeport_stoi stoi
    plug
compact_parsed = refl

accepted_reads_back_example :
    (c : NginxConfig) × (st : NginxConfigStatement) × (s' : State) × IsTreeOf
      (emplace empty nested ∷ [])
      (emplace c st)
    × (parse (to_string (emplace c st) 0) empty [] ≡ returned true s')
    × IsTreeOf s'.stack (emplace c st)
accepted_reads_back_example = accepted_reads_back compact compact_read (ground arith) compact_parsed
