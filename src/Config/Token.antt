-- ===== src/Config/Token.antt =====
-- `NginxConfigParser::ParseToken` of src/config_parser.cc.
--
-- The stream is the list of the bytes not yet read. `get` at the end makes the stream not good,
-- which ends the loop; a byte is never read again but by `unget`.
pub mod Progress
pub mod Words
pub mod Quoted
pub mod Sound
use ucla_cs130_googolplex.Prelude.{
  ℕ, Bytes, codes, ◌==◌, if◌then◌else◌, Bool, ◌||◌, [], ◌∷◌, ◌++◌, ◌≡◌, refl,
}

-- Two constructors share a name with a state: write `TokenType.normal`.
pub data TokenType : Type 0 where
  start normal start_block end_block comment statement_end eof error : TokenType

pub data TokenParserState : Type 0 where
  initial_whitespace single_quote double_quote token_type_comment token_type_normal :
      TokenParserState

-- Where the loop stands when it reads its next byte: at the head of the loop in a state, at the
-- inner `get` behind a backslash, or at the inner `get` behind a closing quote.
pub data Place : Type 0 where
  loop : TokenParserState → Place
  escaped : TokenParserState → Place
  closed : TokenParserState → Place

-- What one byte leads to: a `return`, an `unget` and a `return`, or the next byte.
pub data Step : Type 0 where
  give : TokenType → Bytes → Step
  give_back : TokenType → Bytes → Step
  goto : Place → Bytes → Step

-- The test behind a token and behind a closing quote. The source names '\t' twice, and not '\r'.
unfoldable pub ends_token : ℕ → Bool
ends_token c =
    c == b' ' || c == b'\t' || c == b'\n' || c == b'\t' || c == b';' || c == b'{' || c == b'}'

-- The state that an opening byte leads to, where it opens anything.
initial_step : Bytes → ℕ → Step
initial_step value c =
    if c == b'{'
    then give start_block (c ∷ [])
    else if c == b'}'
    then give end_block (c ∷ [])
    else if c == b'#'
    then goto (loop token_type_comment) (c ∷ [])
    else if c == b'"'
    then goto (loop double_quote) (c ∷ [])
    else if c == b'\''
    then goto (loop single_quote) (c ∷ [])
    else if c == b';'
    then give statement_end (c ∷ [])
    else if c == b' ' || c == b'\t' || c == b'\n' || c == b'\r'
    then goto (loop initial_whitespace) value
    else goto (loop token_type_normal) (value ++ c ∷ [])

-- The two cases of a quoted state, which differ in the quote `q` alone.
quote_step : TokenParserState → ℕ → Bytes → ℕ → Step
quote_step state q value c =
    if c == b'\\'
    then goto (escaped state) value
    else if c == q
    then goto (closed state) (value ++ c ∷ [])
    else goto (loop state) (value ++ c ∷ [])

unfoldable pub step : Place → Bytes → ℕ → Step
unfolding initial_step quote_step
step (loop initial_whitespace) value c = initial_step value c
step (loop single_quote) value c = quote_step single_quote b'\'' value c
step (loop double_quote) value c = quote_step double_quote b'"' value c
step (loop token_type_comment) value c =
    if c == b'\n' || c == b'\r'
    then give comment value
    else goto (loop token_type_comment) (value ++ c ∷ [])
step (loop token_type_normal) value c =
    if ends_token c then give_back normal value else goto (loop token_type_normal) (value ++ c ∷ [])
step (escaped state) value c = goto (loop state) (value ++ c ∷ [])
step (closed state) value c = if ends_token c then give_back normal value else give error value

-- Behind the loop. The inner `get`s at the end give `EOF`, which is the byte 255 in a `char`: behind
-- a backslash it is appended, and behind a closing quote it ends no token and is an error.
unfoldable pub at_end : Place → TokenType
at_end (loop single_quote) = error
at_end (loop double_quote) = error
at_end (loop _) = eof
at_end (escaped _) = error
at_end (closed _) = error

abbrev end_value : Place → Bytes → Bytes
end_value (escaped _) value = value ++ 255 ∷ []
end_value _ value = value

-- The token that is returned, `*value`, and the bytes that are left in the stream.
pub record Token : Type 0 where
  pub type : TokenType
  pub value : Bytes
  pub rest : Bytes

unfoldable pub scan : Place → Bytes → Bytes → Token
scan p value [] = record { type = at_end p; value = end_value p value; rest = [] }
scan p value (c ∷ input) = elim (step p value c) [
  | give type out ↦ record { type = type; value = out; rest = input }
  | give_back type out ↦ record { type = type; value = out; rest = c ∷ input }
  | goto next out ↦ scan next out input
]

-- The caller hands a fresh string.
unfoldable pub parse_token : Bytes → Token
unfolding scan step at_end ends_token
parse_token = scan (loop initial_whitespace) []

parse_token_normal :
    parse_token (codes " \tlisten 80;")
    ≡ record { type = normal; value = codes "listen"; rest = codes " 80;" }
unfolding parse_token
parse_token_normal = refl

parse_token_quoted :
    parse_token (codes "'a \\' b';")
    ≡ record { type = normal; value = codes "'a ' b'"; rest = codes ";" }
unfolding parse_token
parse_token_quoted = refl
