-- ===== src/Config/Locals.antt =====
-- The state of `NginxConfigParser::Parse` of src/config_parser.cc, its flow of control, and its tests on
-- token types.
use ucla_cs130_googolplex.Prelude.{
  zero, Bytes, Bool, true, false, List, [], ◌∷◌, Option, none, some,
}
use ucla_cs130_googolplex.Prelude.Int.{ℤ, pos, negsuc}
use ucla_cs130_googolplex.Std.Dict.{Dict}
use ucla_cs130_googolplex.Config.Arg.{ConfigArg}
use ucla_cs130_googolplex.Config.Token.{
  TokenType, start, normal, start_block, end_block, statement_end,
}
use ucla_cs130_googolplex.Config.Tree.{NginxConfig}

-- The locals of `Parse` and what its out-parameters point to. `root` is what `config` shows once the
-- stack is empty.
pub record State : Type 0 where
  pub stack : List NginxConfig
  pub root : Option NginxConfig
  pub last_token_type : TokenType
  pub remaining_bracket : ℤ
  pub port : ℤ
  pub addrmap : Dict ConfigArg

-- What a piece of a round does: it goes on, it leaves the function with the result, or its behaviour
-- is undefined.
pub data Flow (A : Type 0) : Type 0 where
  go : A → Flow A
  leave : Bool → State → Flow A
  undefined : Flow A

infixl 5 ◌>>=◌
unfoldable pub ◌>>=◌ : {A B : Type 0} → Flow A → (A → Flow B) → Flow B
go a >>= f = f a
leave b s >>= f = leave b s
undefined >>= f = undefined

abbrev pub defined : {A : Type 0} → Option A → Flow A
defined none = undefined
defined (some a) = go a

abbrev pub is_normal : TokenType → Bool
is_normal normal = true
is_normal _ = false

-- The types behind which a normal token may stand.
abbrev pub may_precede_normal : TokenType → Bool
may_precede_normal start = true
may_precede_normal statement_end = true
may_precede_normal start_block = true
may_precede_normal end_block = true
may_precede_normal normal = true
may_precede_normal _ = false

abbrev pub may_precede_end_block : TokenType → Bool
may_precede_end_block statement_end = true
may_precede_end_block start_block = true
may_precede_end_block end_block = true
may_precede_end_block _ = false

abbrev pub may_precede_eof : TokenType → Bool
may_precede_eof statement_end = true
may_precede_eof end_block = true
may_precede_eof _ = false

abbrev pub is_start_block : TokenType → Bool
is_start_block start_block = true
is_start_block _ = false

abbrev pub is_zero : ℤ → Bool
is_zero (pos zero) = true
is_zero _ = false

abbrev pub is_minus_one : ℤ → Bool
is_minus_one (negsuc zero) = true
is_minus_one _ = false

abbrev pub is_empty : Bytes → Bool
is_empty [] = true
is_empty (_ ∷ _) = false
