-- ===== src/Config/Parse/Reparsed.antt =====
-- `Parse` of src/config_parser.cc on what `ToString` prints of a file that was accepted.
use ucla_cs130_googolplex.Prelude.{
  suc, Bytes, length, true, List, [], ◌∷◌, All, ◌≡◌, refl, subst, arith,
}
use ucla_cs130_googolplex.Config.Token.{normal}
use ucla_cs130_googolplex.Config.Token.Quoted.{IsToken}
use ucla_cs130_googolplex.Config.Token.Sound.{NoBackslash, parse_token-IsSoundToken}
use ucla_cs130_googolplex.Config.Tree.{NginxConfig, empty, emplace, NginxConfigStatement, to_string}
use ucla_cs130_googolplex.Config.Locals.{State}
use ucla_cs130_googolplex.Config.Parse.{returned, initial, parse}
use ucla_cs130_googolplex.Config.Parse.Meaning.{IsPlainConfig}
use ucla_cs130_googolplex.Config.Parse.Rounds.{Ends, rounds_induction_on}
use ucla_cs130_googolplex.Config.Parse.Invariant.{Returns, parse-Returns}
use ucla_cs130_googolplex.Config.Parse.Shape.{IsFilled, Shaped, Accepted}
use ucla_cs130_googolplex.Config.Parse.Shape.Rounds.{round-Shaped}
use ucla_cs130_googolplex.Config.Parse.RoundTrip.{parse-to_string}

parse-Accepted : (text : Bytes) → NoBackslash text → Ends Accepted (parse text empty [])
unfolding parse IsPlainConfig
parse-Accepted text n =
    rounds_induction_on NoBackslash (λ type token. type ≡ normal → IsToken token) Shaped Accepted
      parse_token-IsSoundToken round-Shaped (suc (length text)) text (initial empty []) n
      (record { plain = (tt, tt); filled = (λ f. absurd (ground arith), tt) })

-- The one tree on the stack.
abbrev pub IsTreeOf : List NginxConfig → NginxConfig → Type 0
IsTreeOf stack c = stack ≡ c ∷ []

alone :
    (stack : List NginxConfig)
    → length stack ≡ 1
    → All IsPlainConfig stack
    → All IsFilled stack
    → (c : NginxConfig) × (st : NginxConfigStatement) × IsTreeOf stack (emplace c st)
      × IsPlainConfig (emplace c st)
alone [] h plain filled = absurd (omega arith)
alone (empty ∷ below) h plain filled = absurd filled.0
alone (emplace c st ∷ []) h plain filled = (c, st, refl, plain.0)
alone (emplace c st ∷ top ∷ below) h plain filled = absurd (omega arith)

-- Where Parse accepts a text without a backslash, the one tree that it leaves has a statement, and
-- Parse accepts what ToString prints of that tree and leaves the same tree.
pub accepted_reads_back :
    (text : Bytes) (s : State)
    → NoBackslash text
    → parse text empty [] ≡ returned true s
    → (c : NginxConfig) × (st : NginxConfigStatement) × (s' : State) × IsTreeOf s.stack
        (emplace c st)
      × (parse (to_string (emplace c st) 0) empty [] ≡ returned true s')
      × IsTreeOf s'.stack (emplace c st)
accepted_reads_back text s n e =
    let (_, one, _, _) = subst (Ends Returns) e (parse-Returns text empty [] (tt, tt)) in
    let (plain, filled) = subst (Ends Accepted) e (parse-Accepted text n) in
    let (c, st, tree, is_plain) = alone s.stack one plain filled in
    (c, st, _, tree, parse-to_string c st [] is_plain, refl)
