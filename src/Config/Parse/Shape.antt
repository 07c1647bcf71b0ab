-- ===== src/Config/Parse/Shape.antt =====
-- The trees that `Parse` of src/config_parser.cc builds of a file without a backslash.
pub mod Rounds
use ucla_cs130_googolplex.Prelude.{
  Bytes, codes, equal, Bool, true, false, ◌&&◌, not, List, [], ◌∷◌, All, some, ◌≡◌, refl, sym,
  subst, inl, inr, arith,
}
use ucla_cs130_googolplex.Std.Dict.{Dict}
use ucla_cs130_googolplex.Std.Vector.{Vector, nothing, push_back}
use ucla_cs130_googolplex.Config.Arg.{ConfigArg}
use ucla_cs130_googolplex.Config.Port.{safeport_stoi}
use ucla_cs130_googolplex.Config.Token.{TokenType, normal, statement_end, end_block}
use ucla_cs130_googolplex.Config.Token.Quoted.{IsToken}
use ucla_cs130_googolplex.Config.Tree.{NginxConfig, empty, emplace, statement, null}
use ucla_cs130_googolplex.Config.Stack.{emplace_back, back_tokens, push_token}
use ucla_cs130_googolplex.Config.Locals.{State, Flow, is_normal, is_minus_one}
use ucla_cs130_googolplex.Config.Bindings.{set_root, set_api_key}
use ucla_cs130_googolplex.Config.Parse.{bind_location, listen, directive, in_statement}
use ucla_cs130_googolplex.Config.Parse.Meaning.{IsWords, IsListened, IsPlainConfig, IsPlainBlock}
use ucla_cs130_googolplex.Config.Parse.Rounds.{
  Holds, Holds-bind, Holds-defined, Holds-go, Holds-leave, Holds-if,
}

-- A configuration with a statement.
abbrev pub IsFilled : NginxConfig → Type 0
IsFilled empty = ⊥
IsFilled (emplace _ _) = Unit

-- The tokens behind which the top of the stack has a statement.
abbrev pub fills : TokenType → Bool
fills normal = true
fills statement_end = true
fills end_block = true
fills _ = false

abbrev pub IsTop : TokenType → List NginxConfig → Type 0
IsTop type [] = Unit
IsTop type (top ∷ below) = (fills type ≡ true → IsFilled top) × All IsFilled below

-- The stack between two tokens.
pub record IsShaped (type : TokenType) (stack : List NginxConfig) : Type 0 where
  pub plain : All IsPlainConfig stack
  pub filled : IsTop type stack

abbrev pub Shaped : State → Type 0
Shaped s = IsShaped s.last_token_type s.stack

-- What is left of an accepted file.
abbrev pub Accepted : Bool → State → Type 0
Accepted true s = All IsPlainConfig s.stack × All IsFilled s.stack
Accepted false s = Unit

pub ruleset shape_rules = (Holds-if, Holds-go, Holds-leave)

-- The tokens of the statement that a token is put to: it is new, or its last token came just before.
abbrev pub IsBegun : TokenType → Vector Bytes → Type 0
IsBegun type nothing = Unit
IsBegun type (push_back ts t) = IsWords (push_back ts t) × (is_normal type ≡ true)

abbrev pub IsOpen : TokenType → List NginxConfig → Type 0
IsOpen type [] = Unit
IsOpen type (empty ∷ below) = Unit
IsOpen type (emplace c (statement ts child) ∷ below) =
    IsPlainConfig c
    × IsBegun type ts
    × IsPlainBlock child
    × All IsPlainConfig below
    × All IsFilled below

-- What a token may follow in its statement.
abbrev pub IsListenedIn : TokenType → Vector Bytes → Bytes → Type 0
IsListenedIn type nothing token = Unit
IsListenedIn type (push_back _ lastoken) token = is_normal type ≡ true → IsListened lastoken token

emplace_back-IsOpen :
    (type : TokenType) (st st' : List NginxConfig)
    → IsShaped type st
    → emplace_back st ≡ some st'
    → IsOpen type st'
unfolding emplace_back IsPlainConfig
emplace_back-IsOpen type [] st' h e = absurd (ground arith)
emplace_back-IsOpen type (top ∷ below) st' h e =
    let same : (emplace top (statement nothing null) ∷ below) ≡ st' = ground arith in
    subst (IsOpen type) same (h.plain.0, tt, tt, h.plain.1, h.filled.1)

goes_on-IsOpen :
    (type : TokenType) (st : List NginxConfig)
    → IsShaped type st
    → is_normal type ≡ true
    → IsOpen type st
unfolding IsPlainConfig
goes_on-IsOpen type [] h e = tt
goes_on-IsOpen type (empty ∷ below) h e = tt
goes_on-IsOpen type (emplace c (statement nothing child) ∷ below) h e = absurd h.plain.0.1.0
goes_on-IsOpen type (emplace c (statement (push_back ts t) child) ∷ below) h e =
    let ((plain, (words, inside)), others) = h.plain in
    (plain, (words, e), inside, others, h.filled.1)

pub in_statement-IsOpen :
    (s : State) → Shaped s → Holds (IsOpen s.last_token_type) Accepted (in_statement s)
unfolding in_statement
in_statement-IsOpen s h =
    Holds-if (λ e. Holds-go (goes_on-IsOpen s.last_token_type s.stack h e))
      λ _. Holds-defined λ st' e. emplace_back-IsOpen s.last_token_type s.stack st' h e

-- What a directive leaves alone, and what it has looked at.
pub record IsDirected (tokens : Vector Bytes) (token : Bytes) (s s' : State) : Type 0 where
  pub stack : s'.stack ≡ s.stack
  pub type : s'.last_token_type ≡ s.last_token_type
  pub listened : IsListenedIn s.last_token_type tokens token

abbrev pub Directed : Vector Bytes → Bytes → State → Flow State → Type 0
Directed tokens token s = Holds (IsDirected tokens token s) Accepted

bind_location-Directed :
    (update : Bytes → Bytes → Dict ConfigArg → Dict ConfigArg) (tokens : Vector Bytes)
    (token : Bytes) (s : State)
    → IsListenedIn s.last_token_type tokens token
    → Directed tokens token s (bind_location update s)
unfolding bind_location
bind_location-Directed update tokens token s h =
    Holds-bind {A = Bytes × Bytes} {P = λ _. Unit {0}} (Holds-defined (λ _ _. tt)) λ b _.
      let updated : IsDirected tokens token s (record s { addrmap = update b.0 b.1 s.addrmap }) =
        record { stack = refl; type = refl; listened = h } in
      let same : IsDirected tokens token s s = record { stack = refl; type = refl; listened = h } in
      search (shape_rules, updated, same)

listen-Directed :
    (ts : Vector Bytes) (lastoken token : Bytes) (s : State)
    → Directed (push_back ts lastoken) token s (listen token s)
unfolding listen
listen-Directed ts lastoken token s =
    Holds-if
      (λ (e : not (is_minus_one (safeport_stoi token)) ≡ true).
        Holds-go (record { stack = refl; type = refl; listened = λ _. inr (ground arith) }))
      (λ _. Holds-leave tt)

pub directive-Directed :
    (tokens : Vector Bytes) (token : Bytes) (s : State)
    → Directed tokens token s (directive tokens token s)
unfolding directive
directive-Directed nothing token s = Holds-go (record { stack = refl; type = refl; listened = tt })
directive-Directed (push_back ts lastoken) token s =
    Holds-if (λ _. listen-Directed ts lastoken token s)
      λ (e : (is_normal s.last_token_type && equal lastoken (codes "listen")) ≡ false).
        let other : IsListenedIn s.last_token_type (push_back ts lastoken) token =
          λ n. inl (ground arith) in
        let by_root =
          bind_location-Directed (λ l t. set_root l t token) (push_back ts lastoken) token s
            other in
        let by_key =
          bind_location-Directed (λ l t. set_api_key l t token) (push_back ts lastoken) token s
            other in
        let same : IsDirected (push_back ts lastoken) token s s = record {
          stack = refl;
          type = refl;
          listened = other;
        } in
        search (shape_rules, by_root, by_key, same)

pub push_token-Shaped :
    (type : TokenType) (token : Bytes) (st st' : List NginxConfig) (ts : Vector Bytes)
    → IsToken token
    → IsOpen type st
    → back_tokens st ≡ some ts
    → IsListenedIn type ts token
    → push_token token st ≡ some st'
    → IsShaped normal st'
unfolding back_tokens push_token IsPlainConfig
push_token-Shaped type token [] st' ts k h b l e = absurd (ground arith)
push_token-Shaped type token (empty ∷ below) st' ts k h b l e = absurd (ground arith)
push_token-Shaped type token (emplace c (statement nothing child) ∷ below) st' ts k h b l e =
    let (plain, _, inside, others, filled) = h in
    let same : (emplace c (statement (push_back nothing token) child) ∷ below) ≡ st' =
      ground arith in
    subst (IsShaped normal) same
      (record { plain = ((plain, (k, inside)), others); filled = (λ _. tt, filled) })
push_token-Shaped type token (emplace c (statement (push_back us t) child) ∷ below) st' ts k h b l
      e =
    let (plain, (words, behind), inside, others, filled) = h in
    let back : push_back us t ≡ ts = ground arith in
    let listened = subst (λ ts. IsListenedIn type ts token) (sym back) l in
    let same : (emplace c (statement (push_back (push_back us t) token) child) ∷ below) ≡ st' =
      ground arith in
    subst (IsShaped normal) same (record {
      plain = ((plain, ((words, k, listened behind), inside)), others);
      filled = (λ _. tt, filled);
    })
