-- ===== src/Config/Parse/Meaning.antt =====
-- What a configuration says, read off its tree: the description that `Parse` of src/config_parser.cc is
-- compared with. It knows no stream, no stack and no last token.
use ucla_cs130_googolplex.Prelude.{
  Bytes, codes, equal, if◌then◌else◌, Bool, false, ◌&&◌, ◌||◌, not, ◌≡◌, ◌⊎◌,
}
use ucla_cs130_googolplex.Prelude.Int.{ℤ}
use ucla_cs130_googolplex.Std.Dict.{Dict}
use ucla_cs130_googolplex.Std.Vector.{Vector, nothing, push_back}
use ucla_cs130_googolplex.Config.Arg.{ConfigArg}
use ucla_cs130_googolplex.Config.Port.{safeport_stoi}
use ucla_cs130_googolplex.Config.Token.Quoted.{IsToken}
use ucla_cs130_googolplex.Config.Tree.{
  NginxConfig, empty, emplace, NginxConfigStatement, statement, ChildBlock, null, block,
}
use ucla_cs130_googolplex.Config.Stack.{binding}
use ucla_cs130_googolplex.Config.Locals.{is_minus_one, is_empty}
use ucla_cs130_googolplex.Config.Bindings.{set_root, set_api_key, bind_empty}

-- What a configuration sets.
pub record Settings : Type 0 where
  pub port : ℤ
  pub addrmap : Dict ConfigArg

-- The location and the handler type of the block around, or two empty strings.
abbrev pub Context : Type 0
Context = Bytes × Bytes

abbrev pub is_bound : Context → Bool
is_bound context = not (is_empty context.0) && not (is_empty context.1)

-- A word behind another in one statement.
unfoldable pub pair_says : Context → Bytes → Bytes → Settings → Settings
pair_says context name value g =
    if equal name (codes "listen")
    then record g { port = safeport_stoi value }
    else if not (is_bound context)
    then g
    else if equal name (codes "root") || equal name (codes "data_path")
    then record g { addrmap = set_root context.0 context.1 value g.addrmap }
    else if equal name (codes "api-key")
    then record g { addrmap = set_api_key context.0 context.1 value g.addrmap }
    else g

unfoldable pub words_say : Context → Vector Bytes → Settings → Settings
unfolding pair_says
words_say context nothing g = g
words_say context (push_back nothing value) g = g
words_say context (push_back (push_back ts name) value) g =
    pair_says context name value (words_say context (push_back ts name) g)

unfoldable mutual
  unfolding words_say

  pub config_says : Context → NginxConfig → Settings → Settings
  config_says context empty g = g
  config_says context (emplace c s) g = statement_says context s (config_says context c g)

  pub statement_says : Context → NginxConfigStatement → Settings → Settings
  statement_says context (statement ts child) g = child_says ts child (words_say context ts g)

  -- The statement is the context of its block. An empty block binds its location without a root.
  pub child_says : Vector Bytes → ChildBlock → Settings → Settings
  child_says ts null g = g
  child_says ts (block empty) g = record g { addrmap = bind_empty ts g.addrmap }
  child_says ts (block (emplace c s)) g =
      statement_says (binding ts) s (config_says (binding ts) c g)

-- A port behind `listen`.
abbrev pub IsListened : Bytes → Bytes → Type 0
IsListened name value =
    equal name (codes "listen") ≡ false ⊎ is_minus_one (safeport_stoi value) ≡ false

-- A statement has a token at least.
abbrev pub IsWords : Vector Bytes → Type 0
IsWords nothing = ⊥
IsWords (push_back nothing t) = IsToken t
IsWords (push_back (push_back ts name) value) =
    IsWords (push_back ts name) × IsToken value × IsListened name value

-- The trees that hold words, or texts in quotes without a backslash, and whose ports are ports.
unfoldable mutual
  pub IsPlainConfig : NginxConfig → Type 0
  IsPlainConfig empty = Unit
  IsPlainConfig (emplace c s) = IsPlainConfig c × IsPlainStatement s

  pub IsPlainStatement : NginxConfigStatement → Type 0
  IsPlainStatement (statement ts child) = IsWords ts × IsPlainBlock child

  pub IsPlainBlock : ChildBlock → Type 0
  IsPlainBlock null = Unit
  IsPlainBlock (block c) = IsPlainConfig c
