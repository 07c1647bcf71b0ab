-- ===== src/Config/Parse/RoundTrip.antt =====
-- `Parse` of src/config_parser.cc on what `ToString` prints.
use ucla_cs130_googolplex.Prelude.{
  ℕ, zero, suc, Bytes, codes, true, All, List, [], ◌∷◌, ◌++◌, append_assoc, append-nil, sym, ◌≡◌,
  refl, ap, ◌∙◌,
}
use ucla_cs130_googolplex.Prelude.Int.{negsuc}
use ucla_cs130_googolplex.Std.Dict.{Dict}
use ucla_cs130_googolplex.Std.Vector.{Vector, nothing, push_back}
use ucla_cs130_googolplex.Config.Arg.{ConfigArg}
use ucla_cs130_googolplex.Config.Token.{
  TokenType, start, normal, end_block, start_block, ends_token,
}
use ucla_cs130_googolplex.Config.Token.Words.{IsBlank}
use ucla_cs130_googolplex.Config.Tree.{
  NginxConfig, empty, emplace, NginxConfigStatement, statement, ChildBlock, null, block, indent,
  joined, to_string, statement_to_string, child_to_string,
}
use ucla_cs130_googolplex.Config.Stack.{parent_binding, binding, back_tokens}
use ucla_cs130_googolplex.Config.Parse.{returned, parse, round, on_eof}
use ucla_cs130_googolplex.Config.Parse.Run.{
  run, run_blank, run_word, run_statement_end, run_start_block, run_end_block, run_eof,
}
use ucla_cs130_googolplex.Config.Parse.Meaning.{
  Settings, Context, words_say, config_says, statement_says, child_says, IsWords, IsPlainConfig,
  IsPlainStatement, IsPlainBlock,
}
use ucla_cs130_googolplex.Config.Parse.Printed.{
  reading, IsBoundary, IsBelow, first_word, next_word, statement_type, last_type, end_says,
  statement_ends, block_opens, block_ends,
}

-- A text that begins with a byte that ends a word.
abbrev IsEnded : Bytes → Type 0
IsEnded [] = ⊥
IsEnded (c ∷ _) = ends_token c ≡ true

word_behind :
    (words word tail : Bytes)
    → (words ++ codes " " ++ word) ++ tail ≡ words ++ (b' ' ∷ (word ++ tail))
word_behind words word tail =
    append_assoc (words ++ codes " ") word tail ∙ append_assoc words (codes " ") (word ++ tail)

-- The words of a statement.
words_read :
    (context : Context) (below : List NginxConfig) (depth : ℕ) (type : TokenType) (c : NginxConfig)
    (g : Settings) (ts : Vector Bytes) (tail : Bytes)
    → IsBelow context below
    → IsBoundary type
    → IsWords ts
    → IsEnded tail
    → run (joined ts ++ tail) (reading (c ∷ below) type depth g)
      ≡ run tail
          (reading (emplace c (statement ts null) ∷ below) normal depth (words_say context ts g))
unfolding joined words_say ends_token
words_read context below depth type c g nothing tail around b h e = absurd h
words_read context below depth type c g ts [] around b h e = absurd e
words_read context below depth type c g (push_back nothing word) (d ∷ rest) around b h e =
    run_word word rest d _ _ h e (first_word c below depth g type word b)
words_read context below depth type c g (push_back (push_back ts name) word) (d ∷ rest) around b
      (h, k, l) e =
    ap (λ i. run i (reading (c ∷ below) type depth g))
      (word_behind (joined (push_back ts name)) word (d ∷ rest))
    ∙ words_read context below depth type c g (push_back ts name) (b' ' ∷ (word ++ d ∷ rest)) around
        b h refl
    ∙ run_blank (word ++ d ∷ rest) _ (codes " ") (refl, tt)
    ∙ run_word word rest d _ _ k e (next_word context below around depth _ c ts name word l)

indent-AllBlank : (depth : ℕ) → All IsBlank (indent depth)
unfolding indent
indent-AllBlank zero = tt
indent-AllBlank (suc depth) = (refl, (refl, indent-AllBlank depth))

child-IsEnded :
    (child : ChildBlock) (depth : ℕ) (tail : Bytes) → IsEnded (child_to_string child depth ++ tail)
unfolding child_to_string ends_token
child-IsEnded null depth tail = refl
child-IsEnded (block c) depth tail = refl

-- Where a block stands below a statement, the statement is its context.
IsBelow-statement :
    (c : NginxConfig) (ts : Vector Bytes) (child : ChildBlock) (below : List NginxConfig)
    → IsBelow (binding ts) (emplace c (statement ts child) ∷ below)
unfolding parent_binding back_tokens
IsBelow-statement c ts child below top = refl

statement-IsBoundary : (s : NginxConfigStatement) → IsBoundary (statement_type s)
statement-IsBoundary (statement _ null) = tt
statement-IsBoundary (statement _ (block _)) = tt

last-IsBoundary :
    (type : TokenType) (c : NginxConfig) → IsBoundary type → IsBoundary (last_type type c)
last-IsBoundary type empty b = b
last-IsBoundary type (emplace _ s) b = statement-IsBoundary s

end_says-child :
    (ts : Vector Bytes) (c : NginxConfig) (g : Settings)
    → end_says ts c (config_says (binding ts) c g) ≡ child_says ts (block c) g
unfolding config_says
end_says-child ts empty g = refl
end_says-child ts (emplace c s) g = refl

four_parts :
    (a b c e tail : Bytes) → (a ++ (b ++ (c ++ e))) ++ tail ≡ a ++ (b ++ (c ++ (e ++ tail)))
four_parts a b c e tail = rw (append_assoc, append_assoc, append_assoc) refl

three_parts : (a b c tail : Bytes) → (a ++ (b ++ c)) ++ tail ≡ a ++ (b ++ (c ++ tail))
three_parts a b c tail = rw (append_assoc, append_assoc) refl

block_text :
    (top : NginxConfig) (depth : ℕ) (tail : Bytes)
    → child_to_string (block top) depth ++ tail
      ≡ b' ' ∷ b'{' ∷ b'\n' ∷ (to_string top (suc depth) ++ (indent depth ++ (b'}' ∷ tail)))
unfolding child_to_string
block_text top depth tail =
    ap (λ t. codes " {\n" ++ t)
      (three_parts (to_string top (suc depth)) (indent depth) (codes "}") tail)

mutual
  unfolding to_string config_says IsPlainConfig

  config_read :
      (c : NginxConfig) (context : Context) (below : List NginxConfig) (depth : ℕ)
      (type : TokenType) (g : Settings) (tail : Bytes)
      → IsBelow context below
      → IsBoundary type
      → IsPlainConfig c
      → run (to_string c depth ++ tail) (reading (empty ∷ below) type depth g)
        ≡ run tail (reading (c ∷ below) (last_type type c) depth (config_says context c g))
  config_read empty context below depth type g tail around b h = refl
  config_read (emplace c s) context below depth type g tail around b (h, k) = rw append_assoc (
      config_read c context below depth type g (statement_to_string s depth ++ tail) around b h
      ∙ statement_read s c context below depth (last_type type c) (config_says context c g) tail
          around (last-IsBoundary type c b) k)

  statement_read :
      (s : NginxConfigStatement) (c : NginxConfig) (context : Context) (below : List NginxConfig)
      (depth : ℕ) (type : TokenType) (g : Settings) (tail : Bytes)
      → IsBelow context below
      → IsBoundary type
      → IsPlainStatement s
      → run (statement_to_string s depth ++ tail) (reading (c ∷ below) type depth g)
        ≡ run tail
            (reading (emplace c s ∷ below) (statement_type s) depth (statement_says context s g))
  statement_read (statement ts child) c context below depth type g tail around b (h, k) =
      let text = child_to_string child depth ++ (b'\n' ∷ tail) in
      ap (λ i. run i (reading (c ∷ below) type depth g))
        (four_parts (indent depth) (joined ts) (child_to_string child depth) (codes "\n") tail)
      ∙ run_blank (joined ts ++ text) _ (indent depth) (indent-AllBlank depth)
      ∙ words_read context below depth type c g ts text around b h
          (child-IsEnded child depth (b'\n' ∷ tail))
      ∙ child_read child c ts below depth (words_say context ts g) tail k

  child_read :
      (child : ChildBlock) (c : NginxConfig) (ts : Vector Bytes) (below : List NginxConfig)
      (depth : ℕ) (g : Settings) (tail : Bytes)
      → IsPlainBlock child
      → run
          (child_to_string child depth ++ (b'\n' ∷ tail))
          (reading (emplace c (statement ts null) ∷ below) normal depth g)
        ≡ run tail (
            reading
              (emplace c (statement ts child) ∷ below)
              (statement_type (statement ts child))
              depth
              (child_says ts child g))
  child_read null c ts below depth g tail h =
      run_statement_end (b'\n' ∷ tail) _ _
        (statement_ends c ts below depth g (emplace c (statement ts null) ∷ below))
      ∙ run_blank tail _ (codes "\n") (refl, tt)
  child_read (block top) c ts below depth g tail h =
      let ending = b'}' ∷ b'\n' ∷ tail in
      let around : IsBelow (binding ts) (emplace c (statement ts (block empty)) ∷ below) =
        IsBelow-statement c ts (block empty) below in
      ap (λ i. run i (reading (emplace c (statement ts null) ∷ below) normal depth g))
        (block_text top depth (b'\n' ∷ tail))
      ∙ run_blank (b'{' ∷ b'\n' ∷ (to_string top (suc depth) ++ (indent depth ++ ending))) _
          (codes " ") (refl, tt)
      ∙ run_start_block (b'\n' ∷ (to_string top (suc depth) ++ (indent depth ++ ending))) _ _
          (block_opens c ts below depth g)
      ∙ run_blank (to_string top (suc depth) ++ (indent depth ++ ending)) _ (codes "\n") (refl, tt)
      ∙ config_read top (binding ts) (emplace c (statement ts (block empty)) ∷ below) (suc depth)
          start_block g (indent depth ++ ending) around tt h
      ∙ run_blank ending _ (indent depth) (indent-AllBlank depth)
      ∙ run_end_block (b'\n' ∷ tail) _ _
          (block_ends c ts below depth (config_says (binding ts) top g) top)
      ∙ run_blank tail _ (codes "\n") (refl, tt)
      ∙ ap
          (λ g. run tail (reading (emplace c (statement ts (block top)) ∷ below) end_block depth g))
          (end_says-child ts top g)

eof_read :
    (stack : List NginxConfig) (s : NginxConfigStatement) (g : Settings)
    → run [] (reading stack (statement_type s) 0 g)
      ≡ returned true (reading stack (statement_type s) 0 g)
unfolding round on_eof
eof_read stack (statement _ null) g = run_eof true _ _ refl
eof_read stack (statement _ (block _)) g = run_eof true _ _ refl

-- Parse accepts what ToString prints of a tree that has a statement, whose statements are unquoted
-- words or texts in quotes that hold neither a backslash nor their quote, one at least, and whose
-- ports are in range; it leaves the same tree, alone on the stack, and the port and the map that
-- the tree says, read off statement by statement.
pub parse-to_string :
    (c : NginxConfig) (s : NginxConfigStatement) (addrmap : Dict ConfigArg)
    → IsPlainConfig (emplace c s)
    → parse (to_string (emplace c s) 0) empty addrmap
      ≡ returned true (
          reading
            (emplace c s ∷ [])
            (statement_type s)
            0
            (config_says ([], []) (emplace c s) (record { port = negsuc 0; addrmap = addrmap })))
unfolding parse parent_binding
parse-to_string c s addrmap h =
    let text = to_string (emplace c s) 0 in
    ap (λ i. run i (reading (empty ∷ []) start 0 (record { port = negsuc 0; addrmap = addrmap })))
      (sym (append-nil text))
    ∙ config_read (emplace c s) ([], []) [] 0 start (record { port = negsuc 0; addrmap = addrmap })
        [] (λ top. refl) tt h
    ∙ eof_read (emplace c s ∷ []) s _
