-- ===== src/Config/Parse/Printed.antt =====
-- How the loop of `Parse` in src/config_parser.cc reads what `ToString` prints.
use ucla_cs130_googolplex.Prelude.{
  ℕ, suc, Bytes, codes, equal, false, Bool-cases, List, ◌∷◌, ◌||◌, not, if◌then◌else◌, none, some,
  ◌≡◌, refl, inl, inr, arith,
}
use ucla_cs130_googolplex.Std.Dict.{Dict}
use ucla_cs130_googolplex.Config.Arg.{ConfigArg}
use ucla_cs130_googolplex.Config.Bindings.{set_root, set_api_key, bind_empty}
use ucla_cs130_googolplex.Prelude.Int.{pos, negsuc, ◌+ℤ◌}
use ucla_cs130_googolplex.Std.Vector.{nothing, push_back, Vector}
use ucla_cs130_googolplex.Config.Token.{
  TokenType, start, normal, start_block, end_block, statement_end,
}
use ucla_cs130_googolplex.Config.Tree.{
  NginxConfig, empty, emplace, NginxConfigStatement, statement, null, block,
}
use ucla_cs130_googolplex.Config.Stack.{
  emplace_back, back_tokens, push_token, open_block, plug, parent_binding,
}
use ucla_cs130_googolplex.Config.Locals.{State, go, ◌>>=◌, is_minus_one}
use ucla_cs130_googolplex.Config.Port.{safeport_stoi}
use ucla_cs130_googolplex.Config.Parse.{
  round, directive, bind_location, listen, on_normal, on_start_block, on_end_block,
}
use ucla_cs130_googolplex.Config.Parse.Meaning.{Settings, Context, is_bound, pair_says, IsListened}

-- The state between two tokens.
abbrev pub reading : List NginxConfig → TokenType → ℕ → Settings → State
reading stack type depth g = record {
  stack = stack;
  root = none;
  last_token_type = type;
  remaining_bracket = pos depth;
  port = g.port;
  addrmap = g.addrmap;
}

-- What a statement may follow.
abbrev pub IsBoundary : TokenType → Type 0
IsBoundary start = Unit
IsBoundary start_block = Unit
IsBoundary end_block = Unit
IsBoundary statement_end = Unit
IsBoundary _ = ⊥

-- The stack below a block that stands in a context.
abbrev pub IsBelow : Context → List NginxConfig → Type 0
IsBelow context below = (top : NginxConfig) → parent_binding (top ∷ below) ≡ some context

module _ (c : NginxConfig) (below : List NginxConfig) (depth : ℕ) (g : Settings) where
  pub first_word :
      (type : TokenType) (word : Bytes)
      → IsBoundary type
      → round normal word (reading (c ∷ below) type depth g)
        ≡ go (reading (emplace c (statement (push_back nothing word) null) ∷ below) normal depth g)
  unfolding round on_normal emplace_back back_tokens push_token directive ◌>>=◌
  first_word start word h = refl
  first_word start_block word h = refl
  first_word end_block word h = refl
  first_word statement_end word h = refl
  first_word normal word h = absurd h
  first_word TokenType.comment word h = absurd h
  first_word TokenType.eof word h = absurd h
  first_word TokenType.error word h = absurd h

module _ (context : Context) (below : List NginxConfig) (around : IsBelow context below) (depth : ℕ)
    (g : Settings) where
  bind_says :
      (update : Bytes → Bytes → Dict ConfigArg → Dict ConfigArg) (top : NginxConfig)
      → bind_location update (reading (top ∷ below) normal depth g)
        ≡ go (
            reading (top ∷ below) normal depth (
              if not (is_bound context)
              then g
              else record g { addrmap = update context.0 context.1 g.addrmap }))
  unfolding bind_location ◌>>=◌
  bind_says update top = elim (Bool-cases (is_bound context)) [
    | inl e ↦ rw (around top, e) refl
    | inr e ↦ rw (around top, e) refl
  ]

  listen_says :
      (top : NginxConfig) (value : Bytes)
      → is_minus_one (safeport_stoi value) ≡ false
      → listen value (reading (top ∷ below) normal depth g)
        ≡ go (reading (top ∷ below) normal depth (record g { port = safeport_stoi value }))
  unfolding listen
  listen_says top value h = rw h refl

  directive_says :
      (top : NginxConfig) (ts : Vector Bytes) (name value : Bytes)
      → IsListened name value
      → directive (push_back ts name) value (reading (top ∷ below) normal depth g)
        ≡ go (reading (top ∷ below) normal depth (pair_says context name value g))
  unfolding directive pair_says
  directive_says top ts name value h = elim (Bool-cases (equal name (codes "listen"))) [
    | inl e ↦ elim h [ inl f ↦ absurd (ground arith) | inr k ↦ rw e (listen_says top value k) ]
    | inr e ↦ elim (Bool-cases (equal name (codes "root") || equal name (codes "data_path"))) [
      | inl e' ↦ rw (e, e') (bind_says (λ l t. set_root l t value) top)
      | inr e' ↦ elim (Bool-cases (equal name (codes "api-key"))) [
        | inl f ↦ rw (e, e', f) (bind_says (λ l t. set_api_key l t value) top)
        | inr f ↦ elim (Bool-cases (is_bound context)) [
          | inl b ↦ rw (e, e', f, b) refl
          | inr b ↦ rw (e, e', f, b) refl
        ]
      ]
    ]
  ]

  -- A word behind another.
  pub next_word :
      (c : NginxConfig) (ts : Vector Bytes) (name value : Bytes)
      → IsListened name value
      → round normal value
          (reading (emplace c (statement (push_back ts name) null) ∷ below) normal depth g)
        ≡ go (
            reading
              (emplace c (statement (push_back (push_back ts name) value) null) ∷ below)
              normal
              depth
              (pair_says context name value g))
  unfolding round on_normal back_tokens push_token ◌>>=◌
  next_word c ts name value h =
      rw (directive_says (emplace c (statement (push_back ts name) null)) ts name value h) refl

-- What is read last in a statement, and in a configuration that has one.
abbrev pub statement_type : NginxConfigStatement → TokenType
statement_type (statement _ null) = statement_end
statement_type (statement _ (block _)) = end_block

abbrev pub last_type : TokenType → NginxConfig → TokenType
last_type type empty = type
last_type type (emplace _ s) = statement_type s

-- What the end of a block says behind its statements.
abbrev pub end_says : Vector Bytes → NginxConfig → Settings → Settings
end_says ts empty g = record g { addrmap = bind_empty ts g.addrmap }
end_says ts (emplace _ _) g = g

opened : (n : ℕ) → pos n +ℤ pos 1 ≡ pos (suc n)
opened n = ground arith

closed : (n : ℕ) → pos (suc n) +ℤ negsuc 0 ≡ pos n
closed n = ground arith

module _ (c : NginxConfig) (ts : Vector Bytes) (below : List NginxConfig) (depth : ℕ)
    (g : Settings) where
  pub statement_ends :
      (stack : List NginxConfig)
      → round statement_end (codes ";") (reading stack normal depth g)
        ≡ go (reading stack statement_end depth g)
  unfolding round
  statement_ends stack = refl

  pub block_opens :
      round start_block (codes "{") (reading (emplace c (statement ts null) ∷ below) normal depth g)
      ≡ go (
          reading
            (empty ∷ emplace c (statement ts (block empty)) ∷ below)
            start_block
            (suc depth)
            g)
  unfolding round on_start_block open_block ◌>>=◌
  block_opens = rw (opened depth) refl

  pub block_ends :
      (top : NginxConfig)
      → round end_block (codes "}") (
          reading
            (top ∷ emplace c (statement ts (block empty)) ∷ below)
            (last_type start_block top)
            (suc depth)
            g)
        ≡ go (
            reading
              (emplace c (statement ts (block top)) ∷ below)
              end_block
              depth
              (end_says ts top g))
  unfolding round on_end_block plug back_tokens ◌>>=◌
  block_ends empty = rw (closed depth) refl
  block_ends (emplace _ (statement _ null)) = rw (closed depth) refl
  block_ends (emplace _ (statement _ (block _))) = rw (closed depth) refl
