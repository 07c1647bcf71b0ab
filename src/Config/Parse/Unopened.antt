-- ===== src/Config/Parse/Unopened.antt =====
-- A block that opens where no statement stands, in src/config_parser.cc.
use ucla_cs130_googolplex.Prelude.{Bytes, codes, length, All, [], ◌∷◌, ◌++◌, ◌≡◌, refl, ◌∙◌}
use ucla_cs130_googolplex.Std.Dict.{Dict}
use ucla_cs130_googolplex.Config.Arg.{ConfigArg}
use ucla_cs130_googolplex.Config.Token.{TokenType, step, initial_whitespace, loop, parse_token}
use ucla_cs130_googolplex.Config.Token.Progress.{scan_give}
use ucla_cs130_googolplex.Config.Token.Words.{IsBlank, scan_blank}
use ucla_cs130_googolplex.Config.Tree.{empty}
use ucla_cs130_googolplex.Config.Stack.{open_block}
use ucla_cs130_googolplex.Config.Locals.{◌>>=◌}
use ucla_cs130_googolplex.Config.Parse.{parse, initial, on_start_block, round, undefined_behaviour}
use ucla_cs130_googolplex.Config.Parse.Rounds.{rounds_undefined}

parse_token_start_block :
    (ws rest : Bytes)
    → All IsBlank ws
    → parse_token (ws ++ b'{' ∷ rest)
      ≡ record { type = TokenType.start_block; value = codes "{"; rest = rest }
unfolding parse_token
parse_token_start_block ws rest h =
    scan_blank ws [] (b'{' ∷ rest) h
    ∙ scan_give (loop initial_whitespace) [] b'{' rest _ _ (unfold step in refl)

-- A file in which nothing but blanks stands in front of an opening bracket is undefined behaviour,
-- if the tree that Parse is given is empty.
pub parse_start_block :
    (ws rest : Bytes) (addrmap : Dict ConfigArg)
    → All IsBlank ws
    → parse (ws ++ b'{' ∷ rest) empty addrmap ≡ undefined_behaviour
unfolding parse
parse_start_block ws rest addrmap h =
    rounds_undefined (length (ws ++ b'{' ∷ rest)) (ws ++ b'{' ∷ rest) (initial empty addrmap) (
      rw (parse_token_start_block ws rest h) (unfold round on_start_block open_block ◌>>=◌ in refl))
